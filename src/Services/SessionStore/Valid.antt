-- ===== src/Services/SessionStore/Valid.antt =====
-- src/services/session-store.ts: which sessions are valid, and when.
use mathlib.Core.Bool.{true≢false}
use bitsby.Prelude.{
  ℕ, ◌+◌, ◌≡◌, ◌≢◌, refl, sym, ap, ◌∙◌, Bool, true, false, Option, none, some, List, [], ◌∷◌, ltb,
  leb, list_eq, list_eq_refl, list_eq→eq, other-list_eq, Bool-cases, inl, inr, arith, if◌then◌else◌,
}
use bitsby.Services.SessionStore.{
  SessionId, Session, SessionStore, expiry_in, delete_in, set_in, validate_entry, validate_session,
}

-- The expiry under an id, as a map from ids.
unfoldable pub expiry_of : SessionStore → SessionId → Option ℕ
expiry_of s id = expiry_in s.sessions id

pub expiry-delete_self :
    (id : SessionId) (sessions : List Session) → expiry_in (delete_in id sessions) id ≡ none
expiry-delete_self id [] = refl
expiry-delete_self id (s ∷ sessions) = elim (Bool-cases (list_eq s.id id)) [
  | inl h ↦ rw h (expiry-delete_self id sessions)
  | inr h ↦ rw (h, h) (expiry-delete_self id sessions)
]

pub expiry-delete_ne :
    (id other : SessionId) (sessions : List Session)
    → id ≢ other
    → expiry_in (delete_in id sessions) other ≡ expiry_in sessions other
expiry-delete_ne id other [] ne = refl
expiry-delete_ne id other (s ∷ sessions) ne = elim (Bool-cases (list_eq s.id id)) [
  | inl h ↦
      let apart = other-list_eq s.id other (λ e. ne (sym (list_eq→eq s.id id h) ∙ e)) in
      rw (h, apart) (expiry-delete_ne id other sessions ne)
  | inr h ↦ rw (h, expiry-delete_ne id other sessions ne) refl
]

-- An id that is not there is not there after a deletion.
pub expiry-delete_none :
    (id other : SessionId) (sessions : List Session)
    → expiry_in sessions other ≡ none
    → expiry_in (delete_in id sessions) other ≡ none
expiry-delete_none id other sessions h = elim (Bool-cases (list_eq id other)) [
  | inl e ↦ rw (list_eq→eq id other e) (expiry-delete_self other sessions)
  | inr e ↦
      expiry-delete_ne id other sessions
        (λ p. absurd (true≢false (sym (list_eq_refl id) ∙ ap (list_eq id) p ∙ e)))
      ∙ h
]

pub expiry-set_self :
    (id : SessionId) (e : ℕ) (sessions : List Session)
    → expiry_in (set_in id e sessions) id ≡ some e
expiry-set_self id e [] = rw (list_eq_refl id) refl
expiry-set_self id e (s ∷ sessions) = elim (Bool-cases (list_eq s.id id)) [
  | inl h ↦ rw (h, h) refl
  | inr h ↦ rw (h, h) (expiry-set_self id e sessions)
]

pub expiry-set_ne :
    (id other : SessionId) (e : ℕ) (sessions : List Session)
    → id ≢ other
    → expiry_in (set_in id e sessions) other ≡ expiry_in sessions other
expiry-set_ne id other e [] ne = rw (other-list_eq id other ne) refl
expiry-set_ne id other e (s ∷ sessions) ne = elim (Bool-cases (list_eq s.id id)) [
  | inl h ↦
      let apart = other-list_eq s.id other (λ p. ne (sym (list_eq→eq s.id id h) ∙ p)) in
      rw (h, apart) refl
  | inr h ↦ rw (h, expiry-set_ne id other e sessions ne) refl
]

-- Whether an expiry is in the future.
abbrev pub live : ℕ → Option ℕ → Bool
live now none = false
live now (some t) = ltb now t

-- validateSession answers whether the id is there and its expiry in the future; then its expiry
-- is `ttlMs` from now, and otherwise the id is not there any more; the expiry under another id is
-- what it was.
pub validate_session-expiry :
    (id other : SessionId) (now : ℕ) (s : SessionStore)
    → id ≢ other
    → ((validate_session id now s).0 ≡ live now (expiry_of s id))
      × (expiry_of (validate_session id now s).1 id
          ≡ (if live now (expiry_of s id) then some (now + s.ttl_ms) else none))
      × (expiry_of (validate_session id now s).1 other ≡ expiry_of s other)
unfolding validate_session expiry_of
validate_session-expiry id other now s ne = on (expiry_in s.sessions id) refl
  where
    on :
        (t : Option ℕ)
        → expiry_in s.sessions id ≡ t
        → ((validate_entry id now s t).0 ≡ live now t)
          × (expiry_in (validate_entry id now s t).1.sessions id
              ≡ (if live now t then some (now + s.ttl_ms) else none))
          × (expiry_in (validate_entry id now s t).1.sessions other ≡ expiry_in s.sessions other)
    on none h = (refl, h, refl)
    on (some t) h = elim (Bool-cases (leb t now)) [
      | inl k ↦
          let past : ltb now t ≡ false = ground arith in
          rw (k, past)
            (refl, expiry-delete_self id s.sessions, expiry-delete_ne id other s.sessions ne)
      | inr k ↦
          let future : ltb now t ≡ true = ground arith in
          rw (k, future)
            (
              refl,
              expiry-set_self id (now + s.ttl_ms) s.sessions,
              expiry-set_ne id other (now + s.ttl_ms) s.sessions ne,
            )
    ]
