-- ===== src/Serialization/Reader/Safe.antt =====
-- Safe readers: no panic, and a position inside the slice, whatever the bytes. `Total` has the proof
-- for each reader of src/serialization.rs.
use justdbd.Common.{
  ℕ, ◌≤◌, ◌<◌, ◌^◌, ◌≡◌, ◌≢◌, refl, List, arith, ◌∙◌, Bool, true, false, length, All, if◌then◌else◌,
}
use justdbd.Common.Bytes.{Byte}
use justdbd.Common.Outcome.{Outcome, ok, err, panic, resume, return, fail, ◌>>=◌}
use justdbd.Error.{StorageError}
use justdbd.Serialization.Reader.{new, Deserializer, Reader}

-- The slice holds bytes, is no longer than `isize::MAX`, and the position lies in it.
pub record IsReadable (d : Deserializer) : Type 0 where
  pub inside : d.position ≤ length d.data_of
  pub small : length d.data_of < 2 ^ 63
  pub bytes : All Byte d.data_of

abbrev pub Ends : {A : Type 0} → (A → Type 0) → Outcome StorageError A → Type 0
Ends Q (ok a) = Q a
Ends Q (err e) = Unit
Ends Q panic = ⊥

-- From a readable state: no panic, a result that satisfies `Q`, a readable state of the same slice.
pub record Safe {A : Type 0} (Q : A → Type 0) (m : Reader A) : Type 0 where
  pub ends : (d : Deserializer) → IsReadable d → Ends Q (m d).0
  pub stays : (d : Deserializer) → IsReadable d → IsReadable (m d).1
  pub same : (d : Deserializer) → IsReadable d → (m d).1.data_of ≡ d.data_of

module _ {A : Type 0} {Q : A → Type 0} where
  pub Safe-return : (a : A) → Q a → Safe Q (return a)
  Safe-return a q = record { ends = λ d v. q; stays = λ d v. v; same = λ d v. refl }

  pub Safe-fail : (e : StorageError) → Safe Q (fail e)
  Safe-fail e = record { ends = λ d v. tt; stays = λ d v. v; same = λ d v. refl }

  pub Safe-if :
      (b : Bool) (m n : Reader A)
      → (b ≡ true → Safe Q m)
      → (b ≡ false → Safe Q n)
      → Safe Q (if b then m else n)
  Safe-if true m n hm hn = hm refl
  Safe-if false m n hm hn = hn refl

module _ {A B : Type 0} {Q : A → Type 0} {R : B → Type 0} where
  resume-Ends :
      (r : Outcome StorageError A) (f : A → Reader B) (d : Deserializer)
      → Ends Q r
      → ((a : A) → Q a → Safe R (f a))
      → IsReadable d
      → Ends R (resume r f d).0
        × IsReadable (resume r f d).1
        × ((resume r f d).1.data_of ≡ d.data_of)
  resume-Ends (ok a) f d q h v = ((h a q).ends d v, (h a q).stays d v, (h a q).same d v)
  resume-Ends (err e) f d q h v = (tt, v, refl)
  resume-Ends panic f d q h v = absurd q

  pub Safe-bind :
      (m : Reader A) (f : A → Reader B)
      → Safe Q m
      → ((a : A) → Q a → Safe R (f a))
      → Safe R (m >>= f)
  Safe-bind m f hm hf =
      let run = λ (d : Deserializer) (v : IsReadable d).
        resume-Ends (m d).0 f (m d).1 (hm.ends d v) hf (hm.stays d v) in
      record {
        ends = λ d v. (run d v).0;
        stays = λ d v. (run d v).1;
        same = λ d v. (run d v).2 ∙ hm.same d v;
      }

module _ {A : Type 0} (Q R : A → Type 0) (weaken : (a : A) → Q a → R a) where
  Ends-imp : (r : Outcome StorageError A) → Ends Q r → Ends R r
  Ends-imp (ok a) q = weaken a q
  Ends-imp (err e) q = tt
  Ends-imp panic q = absurd q

  pub Safe-imp : (m : Reader A) → Safe Q m → Safe R m
  Safe-imp m h = record {
    ends = λ d v. Ends-imp (m d).0 (h.ends d v);
    stays = h.stays;
    same = h.same;
  }

Ends-ne-panic : {A : Type 0} (Q : A → Type 0) (r : Outcome StorageError A) → Ends Q r → r ≢ panic
Ends-ne-panic Q (ok a) q = cc
Ends-ne-panic Q (err e) q = cc
Ends-ne-panic Q panic q = absurd q

pub Safe-new-ne-panic :
    {A : Type 0} {Q : A → Type 0} (m : Reader A)
    → Safe Q m
    → (input : List ℕ) → All Byte input
    → length input < 2 ^ 63
    → (m (new input)).0 ≢ panic
Safe-new-ne-panic m safe input h small =
    Ends-ne-panic _ _
      (safe.ends (new input) (record { inside = omega arith; small = small; bytes = h }))
