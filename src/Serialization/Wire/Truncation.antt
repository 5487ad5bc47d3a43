-- ===== src/Serialization/Wire/Truncation.antt =====
-- src/serialization.rs: what is read of a sequence whose length does not fit the 32 bits that are
-- written for it.
use justdbd.Common.{
  ℕ, ◌+◌, ◌-◌, ◌^◌, ◌<◌, ◌≡◌, ◌≢◌, sym, ap, ◌∙◌, List, ◌++◌, arith, length, take, drop,
  append_assoc, length-append, length-take-le, take-append-drop,
}
use justdbd.Common.Bytes.{le_bytes, length-le_bytes}
use justdbd.Common.Outcome.{ok, ◌>>=◌, bind-ok, bind_assoc}
use justdbd.Serialization.Reader.{Deserializer, Reader, new, read_u32, read_bytes}
use justdbd.Serialization.Reader.Consumes.{
  Consumes, Consumes-bind, Consumes-new, read_u32-Consumes, read_bytes-Consumes,
}

-- A reader of a length and of so many bytes, which makes nothing of them but themselves, does not
-- answer a sequence that is longer than the length in front of it.
pub truncated :
    (f : List ℕ → Reader (List ℕ)) (n : ℕ) (v rest : List ℕ)
    → ((bytes : List ℕ) (d : Deserializer) → (f bytes d).0 ≡ ok v → bytes ≡ v)
    → n < 2 ^ 32
    → n < length v
    → length v + length rest < 2 ^ 63 - 4
    → ((read_u32 >>= λ len. read_bytes len >>= f) (new ((le_bytes 4 n ++ v) ++ rest))).0 ≢ ok v
truncated f n v rest itself small short room h =
    let head = le_bytes 4 n ++ take n v in
    let behind = drop n v ++ rest in
    let size = length-take-le n v (omega (arith, short)) in
    let input : (le_bytes 4 n ++ v) ++ rest ≡ head ++ behind =
      append_assoc (le_bytes 4 n) v rest
      ∙ ap (λ l. le_bytes 4 n ++ l)
          (ap (λ l. l ++ rest) (sym (take-append-drop n v))
            ∙ append_assoc (take n v) (drop n v) rest)
      ∙ sym (append_assoc (le_bytes 4 n) (take n v) behind) in
    let whole : length (head ++ behind) < 2 ^ 63 = omega (
      arith,
      ap length input,
      length-append (le_bytes 4 n ++ v) rest,
      length-append (le_bytes 4 n) v,
      length-le_bytes 4 n,
      room,
    ) in
    let reader : Reader (List ℕ) = read_u32 >>= read_bytes in
    let c : Consumes reader head (take n v) =
      Consumes-bind read_u32 read_bytes (le_bytes 4 n) (take n v) (read_u32-Consumes n small)
        (read_bytes-Consumes n (take n v) size) in
    let run = Consumes-new reader head behind c whole in
    let same : take n v ≡ v = itself (take n v) _ (
      sym (
        ap (λ r. r.0)
          (ap (λ bytes. (read_u32 >>= λ len. read_bytes len >>= f) (new bytes)) input
            ∙ sym (bind_assoc read_u32 read_bytes f (new (head ++ behind)))
            ∙ bind-ok reader f (new (head ++ behind)) run))
      ∙ h) in
    omega (arith, size, ap length same, short)
