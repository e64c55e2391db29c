-- ===== src/Security/Identity.antt =====
-- Only what the trusted proxies wrote decides the identity.
use extrio.Base.{
  ℕ, zero, suc, ◌-◌, ◌≤◌, ◌<◌, String, ◌≡◌, ap, sym, ◌∙◌, Option, List, [], ◌∷◌, ◌++◌, arith,
  length, length-append, min,
}
use extrio.Security.{at_index, from_end, vouched, trusted_client_identity}

at_index-append :
    (n : ℕ) (xs ys : List String)
    → length xs ≤ n
    → at_index n (xs ++ ys) ≡ at_index (n - length xs) ys
unfolding at_index
at_index-append n [] ys h = ap (λ k. at_index k ys) (omega arith)
at_index-append zero (x ∷ xs) ys h = absurd (omega (arith, h))
at_index-append (suc n) (x ∷ xs) ys h =
    at_index-append n xs ys (omega (arith, h)) ∙ ap (λ k. at_index k ys) (omega arith)

from_end-append :
    (index : ℕ) (xs ys : List String)
    → index < length ys
    → from_end index (xs ++ ys) ≡ from_end index ys
from_end-append index xs ys h =
    let e = length-append xs ys in
    at_index-append (length (xs ++ ys) - index - 1) xs ys (omega (arith, e, h))
    ∙ ap (λ k. at_index k ys) (omega (arith, e, h))

module _ (ip_address : String → Option String) (remote_host : String) where
  -- what is read of a header that has an entry
  identity_of :
      (n : ℕ) (ys : List String)
      → 1 ≤ n
      → 1 ≤ length ys
      → trusted_client_identity ip_address remote_host ys n
        ≡ vouched ip_address remote_host (from_end (min n (length ys) - 1) ys)
  unfolding trusted_client_identity
  identity_of n [] h l = absurd (omega (arith, l))
  identity_of zero (y ∷ ys) h l = absurd (omega (arith, h))
  identity_of (suc n) (y ∷ ys) h l = ground arith

  -- With as many trusted proxies as entries that they wrote, or more entries, nothing that a client
  -- puts before them in the header changes its identity.
  pub forged_entries :
      (trusted : ℕ) (forged written : List String)
      → 1 ≤ trusted
      → trusted ≤ length written
      → trusted_client_identity ip_address remote_host (forged ++ written) trusted
        ≡ trusted_client_identity ip_address remote_host written trusted
  forged_entries trusted forged written h l =
      let e = length-append forged written in
      let m : min trusted (length (forged ++ written)) ≡ min trusted (length written) =
        omega (arith, e, l) in
      identity_of trusted (forged ++ written) h (omega (arith, e, h, l))
      ∙ ap (vouched ip_address remote_host) (
          ap (λ k. from_end (k - 1) (forged ++ written)) m
          ∙ from_end-append (min trusted (length written) - 1) forged written (omega (arith, h, l)))
      ∙ sym (identity_of trusted written h (omega (arith, h, l)))
