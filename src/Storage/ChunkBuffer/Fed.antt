-- ===== src/Storage/ChunkBuffer/Fed.antt =====
-- What a sink has been given: `Fed sink t data u` says that the sink took `data`, in parts and in
-- order, and came from the state `t` to `u` by it.
use telegram_disk.Base.{◌≡◌, [], ◌++◌}
use telegram_disk.Base.Bits.{Bytes}
use telegram_disk.Base.Result.{ok, SinkFn}

pub data Fed {S : Type 0} (sink : SinkFn S) : S → Bytes → S → Type 0 where
  done : {t : S} → Fed sink t [] t
  part :
      {t u v : S} {data' : Bytes} (piece rest : Bytes)
      → sink piece t ≡ (ok tt, u)
      → Fed sink u rest v
      → data' ≡ piece ++ rest
      → Fed sink t data' v
