-- ===== src/Storage/Upload/Session/Live.antt =====
-- What does not fail when every thread reports a place.
use telegram_disk.Base.{◌≡◌, refl, false, List, [], ◌∷◌, if◌then◌else◌, subst, sym, ◌∙◌, arith}
use telegram_disk.Base.Result.{Result, ok, err}
use telegram_disk.Storage.Chunk.{ChunkLocation}
use telegram_disk.Storage.ChunkBuffer.Files.{Stdio}
use telegram_disk.Storage.Upload.Backend.{Backend}
use telegram_disk.Storage.Upload.Session.{
  Session, ManhBay, KetQua, thu_sound, thu_broken, thu_from, thu_loop, thu_manh, thu_mot_manh,
  thu_het_manh, rewind_session,
}
use Prim.Native.String.{String}

-- No failure.
abbrev pub Sure : {S A : Type 0} → Result A × S → Type 0
Sure r = (x : String) → r.0 ≡ err x → ⊥

module _ {io : Stdio} {be : Backend} where
  -- Every chunk lands.
  abbrev pub Lands : (ManhBay io be → KetQua) → Type 0
  Lands join = (m : ManhBay io be) → (loc : ChunkLocation) × (join m ≡ ok loc)

  thu_sound-Sure :
      (s : Session io be) (m : ManhBay io be) (r : KetQua) (loc : ChunkLocation)
      → r ≡ ok loc
      → Sure (thu_sound s m r) × ((thu_sound s m r).1.manh_hong ≡ s.manh_hong)
  unfolding thu_sound
  thu_sound-Sure s m (ok loc) q e = ((λ x b. absurd (ground (arith, b))), refl)
  thu_sound-Sure s m (err x) q e = absurd (ground (arith, e))

  thu_manh-Sure :
      (join : ManhBay io be → KetQua) (s : Session io be) (m : ManhBay io be)
      → Lands join
      → s.manh_hong ≡ false
      → Sure (thu_manh s m (join m)) × ((thu_manh s m (join m)).1.manh_hong ≡ false)
  unfolding thu_manh
  thu_manh-Sure join s m l e =
      subst
        (λ b.
          let r = if b then thu_broken s (join m) else thu_sound s m (join m) in
          Sure r × (r.1.manh_hong ≡ false))
        (sym e)
        (let (loc, o) = l m in let (a, same) = thu_sound-Sure s m (join m) loc o in (a, same ∙ e))

  thu_from-Sure :
      (join : ManhBay io be → KetQua) (ms : List (ManhBay io be)) (s : Session io be)
      → Lands join
      → s.manh_hong ≡ false
      → Sure (thu_from join ms s)
  unfolding thu_from
  thu_from-Sure join [] s l e = λ x b. absurd (ground (arith, b))
  thu_from-Sure join (m ∷ ms) s l e = (thu_manh-Sure join (record s { dang_bay = ms }) m l e).0

  pub thu_mot-Sure :
      (join : ManhBay io be → KetQua) (s : Session io be)
      → Lands join
      → s.manh_hong ≡ false
      → Sure (thu_mot_manh join s)
  unfolding thu_mot_manh
  thu_mot-Sure join s l e = thu_from-Sure join s.dang_bay s l e

  thu_loop_sound :
      (join : ManhBay io be → KetQua) (ms : List (ManhBay io be)) (s : Session io be)
      → Lands join
      → s.manh_hong ≡ false
      → (thu_loop join ms s).manh_hong ≡ false
  unfolding thu_loop
  thu_loop_sound join [] s l e = e
  thu_loop_sound join (m ∷ ms) s l e =
      thu_loop_sound join ms (thu_manh (record s { dang_bay = ms }) m (join m)).1 l
        (thu_manh-Sure join (record s { dang_bay = ms }) m l e).1

  pub thu_het_ok :
      (join : ManhBay io be → KetQua) (s : Session io be)
      → Lands join
      → s.manh_hong ≡ false
      → (thu_het_manh join s).0 ≡ ok tt
  unfolding thu_het_manh
  thu_het_ok join s l e =
      let s' = thu_loop join s.dang_bay s in
      subst (λ b. (if b then rewind_session s' else (ok tt, s')).0 ≡ ok tt)
        (sym (thu_loop_sound join s.dang_bay s l e)) refl
