-- ===== src/Services/SessionStore/Tests.antt =====
-- Witnesses for src/services/session-store.ts: a store of two sessions at most.
use bitsby.Prelude.{
  ◌≤◌, ◌≡◌, refl, ap, false, none, some, [], ◌∷◌, get_or, if◌then◌else◌, ◌+◌, arith,
}
use bitsby.Services.SessionStore.{
  SessionId, SessionStore, new_store, create_session, validate_session, destroy_session, size,
  creates, Steps, stay, mints,
}
use bitsby.Services.SessionStore.Bounded.{size-bounded}
use bitsby.Services.SessionStore.Valid.{expiry_of, live, validate_session-expiry}
use bitsby.Services.SessionStore.Revoked.{logout, revoked-invalid}

abbrev a : SessionId
a = b'a' ∷ []

abbrev b : SessionId
b = b'b' ∷ []

abbrev c : SessionId
c = b'c' ∷ []

abbrev empty : SessionStore
empty = new_store 10 2

abbrev with_a : SessionStore
with_a = (create_session a 0 empty).1

abbrev with_b : SessionStore
with_b = (create_session b 1 with_a).1

abbrev with_c : SessionStore
with_c = (create_session c 2 with_b).1

evicted_a : expiry_of with_c a ≡ none
unfolding create_session expiry_of
evicted_a = refl

three-Steps : Steps empty (a ∷ b ∷ c ∷ []) with_c
three-Steps = mints empty with_a with_c a (b ∷ c ∷ []) (creates a 0 empty) (
    mints with_a with_b with_c b (c ∷ []) (creates b 1 with_a)
      (mints with_b with_c with_c c [] (creates c 2 with_b) (stay with_c)))

size-bounded_example : size with_c ≤ 2
size-bounded_example = size-bounded 10 2 (a ∷ b ∷ c ∷ []) with_c (omega arith) three-Steps

validate_session-expiry_example :
    ((validate_session b 5 with_b).0 ≡ live 5 (expiry_of with_b b))
    × (expiry_of (validate_session b 5 with_b).1 b
        ≡ (if live 5 (expiry_of with_b b) then some (5 + with_b.ttl_ms) else none))
    × (expiry_of (validate_session b 5 with_b).1 a ≡ expiry_of with_b a)
validate_session-expiry_example = validate_session-expiry b a 5 with_b (λ e. absurd (b_not_a e))
  where
    b_not_a : b ≡ a → ⊥
    b_not_a e = let n : b'b' ≡ b'a' = ap (λ x. get_or x 0 0) e in absurd (omega (arith, n))

revoked-invalid_example :
    validate_session b 3 (create_session c 2 (destroy_session b with_b)).1
    ≡ (false, (create_session c 2 (destroy_session b with_b)).1)
revoked-invalid_example =
    let left = destroy_session b with_b in
    let later = (create_session c 2 left).1 in
    revoked-invalid b (c ∷ []) with_b left later 3 (logout b with_b)
      (mints left later later c [] (creates c 2 left) (stay later)) ((λ e. c_not_b e), tt)
  where
    c_not_b : c ≡ b → ⊥
    c_not_b e = let n : b'c' ≡ b'b' = ap (λ x. get_or x 0 0) e in absurd (omega (arith, n))
