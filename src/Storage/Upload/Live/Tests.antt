-- ===== src/Storage/Upload/Live/Tests.antt =====
-- Threads that store every chunk: the number of a document is its bytes, written as one number.
use telegram_disk.Base.{
  ℕ, zero, suc, ◌+◌, ◌*◌, ◌/◌, ◌%◌, ◌≤◌, ◌≡◌, refl, ap, ◌∙◌, inr, [], ◌∷◌, ◌==◌, leb, true, false,
  if◌then◌else◌, append-nil, arith,
}
use telegram_disk.Base.Bits.{Bytes}
use telegram_disk.Base.Result.{Done, ok}
use telegram_disk.Storage.Samples.{no_disk, no_disk_laws, ledger, plain_plan}
use telegram_disk.Storage.Chunk.{ChunkLocation}
use telegram_disk.Storage.ChunkBuffer.{memory}
use telegram_disk.Storage.Upload.Backend.{Backend}
use telegram_disk.Storage.Upload.Chooser.{Choice}
use telegram_disk.Storage.Upload.Session.{Session, ManhBay, KetQua}
use telegram_disk.Storage.Upload.Session.Placed.{Faithful}
use telegram_disk.Storage.Upload.Session.Live.{Lands}
use telegram_disk.Storage.Upload.Receive.{receive}
use telegram_disk.Storage.Upload.Finish.{complete_chunks}
use telegram_disk.Storage.Upload.Reach.{fresh, here}
use telegram_disk.Storage.Upload.Live.{upload-Lands}

-- A byte in front of `n`: in binary, a zero behind as many ones.
put_byte : ℕ → ℕ → ℕ
put_byte zero n = 2 * n
put_byte (suc b) n = 2 * put_byte b n + 1

number : Bytes → ℕ
number [] = 1
number (b ∷ bs) = put_byte b (number bs)

read_number : ℕ → ℕ → ℕ → Bytes
read_number zero acc n = []
read_number (suc fuel) acc n =
    let more = read_number fuel (acc + 1) (n / 2) in
    let last = acc ∷ read_number fuel 0 (n / 2) in
    if leb n 1 then [] else if n % 2 == 0 then last else more

put_byte_pos : (b n : ℕ) → 1 ≤ n → 2 ≤ put_byte b n
unfolding put_byte
put_byte_pos zero n h = omega arith
put_byte_pos (suc b) n h = omega (arith, put_byte_pos b n h)

read_number-put_byte :
    (b acc fuel n : ℕ) (rest : Bytes)
    → 1 ≤ n
    → put_byte b n ≤ fuel
    → ((f : ℕ) → n ≤ f → read_number f 0 n ≡ rest)
    → read_number fuel acc (put_byte b n) ≡ (acc + b) ∷ rest
unfolding read_number put_byte
read_number-put_byte b acc zero n rest p l h = absurd (omega (arith, put_byte_pos b n p))
read_number-put_byte zero acc (suc fuel) n rest p l h =
    let big : leb (2 * n) 1 ≡ false = ground (arith, p) in
    let even : (2 * n % 2 == 0) ≡ true = ground arith in
    let half : 2 * n / 2 ≡ n = omega arith in
    rw (big, even, half, h fuel (omega (arith, l))) (ap (λ a. a ∷ rest) (omega arith))
read_number-put_byte (suc b) acc (suc fuel) n rest p l h =
    let v = put_byte b n in
    let big : leb (2 * v + 1) 1 ≡ false = ground (arith, put_byte_pos b n p) in
    let odd : ((2 * v + 1) % 2 == 0) ≡ false = ground arith in
    let half : (2 * v + 1) / 2 ≡ v = omega arith in
    rw (big, odd, half)
      (read_number-put_byte b (acc + 1) fuel n rest p (omega (arith, l)) h
        ∙ ap (λ a. a ∷ rest) (omega arith))

number_pos : (bs : Bytes) → 1 ≤ number bs
unfolding number read_number
number_pos [] = omega arith
number_pos (b ∷ bs) = omega (arith, put_byte_pos b (number bs) (number_pos bs))

read_number-number : (bs : Bytes) (f : ℕ) → number bs ≤ f → read_number f 0 (number bs) ≡ bs
unfolding number read_number
read_number-number [] zero h = refl
read_number-number [] (suc f) h = refl
read_number-number (b ∷ bs) f h =
    read_number-put_byte b 0 f (number bs) bs (number_pos bs) h (read_number-number bs)
    ∙ ap (λ a. a ∷ bs) (omega arith)

abbrev content : ℕ → Bytes
content d = read_number d 0 d

abbrev place_of : Bytes → ChunkLocation
place_of bs = record {
  message_id = 5;
  document_id = number bs;
  access_hash = 7;
  file_reference = [];
  dc_id = 2;
  size = 0;
  account_id = 1;
}

abbrev idle : Backend
idle = record {
  World = Done;
  Writer = Done;
  begin_chunk = λ size index w. (ok tt, w);
  write = λ _ part w. (ok tt, w);
  finish = λ _ w. (ok (place_of []), w);
  abort = λ _ w. w;
  remove_chunks = λ _ w. w;
}

abbrev stores : ManhBay no_disk idle → KetQua
stores m = ok (place_of m.buffer.bytes)

abbrev letter : Bytes
letter = 10 ∷ 11 ∷ 12 ∷ 13 ∷ 14 ∷ []

stores-Faithful : Faithful no_disk_laws content letter stores
stores-Faithful m held loc h e =
    let bs = m.buffer.bytes in
    let at : loc.document_id ≡ number bs = ground (arith, e) in
    ap content at ∙ read_number-number bs (number bs) (omega arith) ∙ h.bytes

stores-Lands : Lands stores
stores-Lands m = (place_of m.buffer.bytes, refl)

abbrev chosen : Choice
chosen = record { so_manh_song_song = 2; che_do_dem = memory }

abbrev begun : Session no_disk idle
begun = fresh (λ _. "spool") 5 2 chosen

upload-Lands_example :
    ((receive stores letter (begun, tt)).0 ≡ ok tt)
    × ((receive stores letter (begun, tt)).1.0.received_bytes ≡ 5)
    × ((complete_chunks stores (begun, tt)).0 ≡ ok tt)
unfolding fresh
upload-Lands_example =
    upload-Lands no_disk_laws (ledger 0) plain_plan content letter (λ _. "spool") 5 2 chosen begun
      stores letter tt (omega arith) (omega arith) refl here stores-Faithful stores-Lands refl
      (inr refl) ([], append-nil letter)
