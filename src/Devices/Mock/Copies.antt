-- ===== src/Devices/Mock/Copies.antt =====
-- What is copied to a device is copied back.
use fluidloom.Prelude.{
  ℕ, zero, suc, ◌≤◌, ◌≡◌, refl, ap, ◌∙◌, subst, inl, inr, arith, List, [], ◌∷◌, Option, none, some,
  Option-cases, ok,
}
use fluidloom.Devices.Mock.{
  MockBuffer, copy_bytes, copied, copy_host_to_device, copy_device_to_host, copy_device_to_device,
}

abbrev prepend : ℕ → Option (List ℕ) → Option (List ℕ)
prepend s none = none
prepend s (some copied) = some (s ∷ copied)

abbrev or_empty : Option (List ℕ) → List ℕ
or_empty none = []
or_empty (some bytes) = bytes

copy_bytes-cons :
    (m s : ℕ) (first second out : List ℕ)
    → ((rest : List ℕ) → copy_bytes m first rest ≡ copy_bytes m second rest)
    → copy_bytes (suc m) (s ∷ first) out ≡ copy_bytes (suc m) (s ∷ second) out
unfolding copy_bytes
copy_bytes-cons m s first second [] same = refl
copy_bytes-cons m s first second (o ∷ out) same = ap (prepend s) (same out)

copy_bytes-twice :
    (n m : ℕ) (source target after out : List ℕ)
    → copy_bytes n source target ≡ some after
    → m ≤ n
    → copy_bytes m after out ≡ copy_bytes m source out
unfolding copy_bytes
copy_bytes-twice n zero source target after out e le = refl
copy_bytes-twice zero (suc m) source target after out e le = absurd (omega arith)
copy_bytes-twice (suc n) (suc m) [] target after out e le = absurd (cc)
copy_bytes-twice (suc n) (suc m) (s ∷ source) [] after out e le = absurd (cc)
copy_bytes-twice (suc n) (suc m) (s ∷ source) (t ∷ target) after out e le =
    elim (Option-cases (copy_bytes n source target)) [
      | inl failed ↦ absurd (cc (simp (failed, copy_bytes) at e))
      | inr (rest, made) ↦
          let result = ap or_empty (simp (made, copy_bytes) at e) in
          subst
            (λ (bytes : List ℕ). copy_bytes (suc m) bytes out ≡ copy_bytes (suc m) (s ∷ source) out)
            result
            (copy_bytes-cons m s rest source out (λ rest_out.
              copy_bytes-twice n m source target rest rest_out made (omega (arith, le))))
    ]

copied-ok : (o : Option (List ℕ)) (bytes : List ℕ) → copied o ≡ ok bytes → o ≡ some bytes
copied-ok none bytes e = absurd (cc)
copied-ok (some found) bytes e = cc

-- Where bytes of the host are copied to a buffer, and from there to another buffer, copying no more
-- of these bytes back to the host does what copying them from the host directly does: the same bytes, or the same
-- overrun.
pub copy_device_to_host-round_trip :
    (n m k : ℕ) (host_src out : List ℕ) (first second written passed : MockBuffer)
    → copy_host_to_device (some host_src) first n ≡ ok written
    → copy_device_to_device written second m ≡ ok passed
    → m ≤ n
    → k ≤ m
    → copy_device_to_host passed (some out) k ≡ copied (copy_bytes k host_src out)
unfolding copy_host_to_device copy_device_to_device copy_device_to_host
copy_device_to_host-round_trip n m k host_src out first second written passed sent moved le le' =
    let wrote = copied-ok (copy_bytes n host_src first) written sent in
    let went = copied-ok (copy_bytes m written second) passed moved in
    ap copied (
      copy_bytes-twice m k written second passed out went le'
      ∙ copy_bytes-twice n k host_src first written out wrote (omega (arith, le, le')))
