-- ===== src/Services/SessionStore/Revoked.antt =====
-- src/services/session-store.ts: a session that was revoked is never valid again.
use mathlib.Core.Option.{none-ne-some}
use mathlib.Core.Bool.{true≢false}
use bitsby.Prelude.{
  ℕ, ◌+◌, ◌≡◌, ◌≢◌, refl, sym, ap, ◌∙◌, Bool, true, false, Option, none, some, List, [], ◌∷◌, leb,
  length, list_eq, list_eq_refl, list_eq→eq, other-list_eq, Bool-cases, inl, inr, if◌then◌else◌,
  All,
}
use bitsby.Services.SessionStore.{
  SessionId, Session, SessionStore, expiry_in, delete_in, oldest_from, delete_oldest, evict_oldest,
  create_session, validate_entry, validate_session, destroy_session, delete_others,
  destroy_all_except, destroy_all, Step, creates, validates, destroys, destroys_others,
  destroys_all, Steps, stay, next, mints,
}
use bitsby.Services.SessionStore.Valid.{
  expiry-delete_self, expiry-delete_ne, expiry-delete_none, expiry-set_ne,
}

-- Without the id, in the list of sessions.
abbrev Absent : SessionId → List Session → Type 0
Absent id sessions = expiry_in sessions id ≡ none

delete_others-Absent :
    (keep id : SessionId) (keys sessions : List Session)
    → Absent id sessions
    → Absent id (delete_others keep keys sessions)
delete_others-Absent keep id [] sessions h = h
delete_others-Absent keep id (k ∷ keys) sessions h = elim (Bool-cases (list_eq k.id keep)) [
  | inl e ↦ rw e (delete_others-Absent keep id keys sessions h)
  | inr e ↦ rw e (
      delete_others-Absent keep id keys (delete_in k.id sessions)
        (expiry-delete_none k.id id sessions h))
]

-- Each id among the keys but the one to keep is deleted.
delete_others-deletes :
    (keep id : SessionId) (keys sessions : List Session)
    → id ≢ keep
    → (Absent id keys → Absent id sessions)
    → Absent id (delete_others keep keys sessions)
delete_others-deletes keep id [] sessions ne h = h refl
delete_others-deletes keep id (k ∷ keys) sessions ne h = elim (Bool-cases (list_eq k.id id)) [
  | inl e ↦
      let same : k.id ≡ id = list_eq→eq k.id id e in
      let deleted = other-list_eq k.id keep (λ p. ne (sym same ∙ p)) in
      rw deleted (
        delete_others-Absent keep id keys (delete_in k.id sessions)
          (rw same (expiry-delete_self id sessions)))
  | inr e ↦
      let apart : k.id ≢ id =
        λ p. true≢false (sym (ap (λ x. list_eq x id) p ∙ list_eq_refl id) ∙ e) in
      elim (Bool-cases (list_eq k.id keep)) [
        | inl d ↦ rw d (delete_others-deletes keep id keys sessions ne (λ a. h (rw e a)))
        | inr d ↦ rw d (
            delete_others-deletes keep id keys (delete_in k.id sessions) ne
              (λ a. expiry-delete_ne k.id id sessions apart ∙ h (rw e a)))
      ]
]

delete_oldest-Absent :
    (id : SessionId) (o : Option Session) (sessions : List Session)
    → Absent id sessions
    → Absent id (delete_oldest o sessions)
delete_oldest-Absent id none sessions h = h
delete_oldest-Absent id (some s) sessions h = expiry-delete_none s.id id sessions h

evict_if-Absent :
    (id : SessionId) (full : Bool) (sessions : List Session)
    → Absent id sessions
    → Absent id (if full then evict_oldest sessions else sessions)
evict_if-Absent id true sessions h = delete_oldest-Absent id (oldest_from none sessions) sessions h
evict_if-Absent id false sessions h = h

validate-Absent :
    (id other : SessionId) (now : ℕ) (s : SessionStore) (t : Option ℕ)
    → expiry_in s.sessions id ≡ t
    → Absent other s.sessions
    → Absent other (validate_entry id now s t).1.sessions
validate-Absent id other now s none at h = h
validate-Absent id other now s (some t) at h = elim (Bool-cases (leb t now)) [
  | inl k ↦ rw k (expiry-delete_none id other s.sessions h)
  | inr k ↦ rw k (
      expiry-set_ne id other (now + s.ttl_ms) s.sessions
        (λ e. none-ne-some t (sym h ∙ ap (expiry_in s.sessions) (sym e) ∙ at))
      ∙ h)
]

-- The ids that an operation mints are not `id`.
abbrev Minted : Option SessionId → SessionId → Type 0
Minted none id = Unit
Minted (some x) id = x ≢ id

Step-Absent :
    (id : SessionId) (s t : SessionStore) (minted : Option SessionId)
    → Step s minted t
    → Minted minted id
    → Absent id s.sessions
    → Absent id t.sessions
unfolding create_session validate_session destroy_session destroy_all_except destroy_all
Step-Absent id s t minted (creates x now _) other h =
    let sessions =
      (if leb s.max_sessions (length s.sessions) then evict_oldest s.sessions else s.sessions) in
    expiry-set_ne x id (now + s.ttl_ms) sessions other
    ∙ evict_if-Absent id (leb s.max_sessions (length s.sessions)) s.sessions h
Step-Absent id s t minted (validates x now _) other h =
    validate-Absent x id now s (expiry_in s.sessions x) refl h
Step-Absent id s t minted (destroys x _) other h = expiry-delete_none x id s.sessions h
Step-Absent id s t minted (destroys_others x _) other h =
    delete_others-Absent x id s.sessions s.sessions h
Step-Absent id s t minted (destroys_all _) other h = refl

Steps-Absent :
    (id : SessionId) (s t : SessionStore) (ids : List SessionId)
    → Steps s ids t
    → All (λ x. x ≢ id) ids
    → Absent id s.sessions
    → Absent id t.sessions
Steps-Absent id s t ids (stay _) other h = h
Steps-Absent id s t ids (next _ m _ _ one more) other h =
    Steps-Absent id m t ids more other (Step-Absent id s m none one tt h)
Steps-Absent id s t ids (mints _ m _ x rest one more) other h =
    Steps-Absent id m t rest more other.1 (Step-Absent id s m (some x) one other.0 h)

-- The ways to revoke a session: a logout, a password change in another session, and new
-- credentials.
pub data Revokes : SessionId → SessionStore → SessionStore → Type 0 where
  logout : (id : SessionId) (s : SessionStore) → Revokes id s (destroy_session id s)
  other_kept :
      (id keep : SessionId) (s : SessionStore)
      → id ≢ keep
      → Revokes id s (destroy_all_except keep s)
  rotation : (id : SessionId) (s : SessionStore) → Revokes id s (destroy_all s)

Revokes-Absent : (id : SessionId) (s t : SessionStore) → Revokes id s t → Absent id t.sessions
unfolding destroy_session destroy_all_except destroy_all
Revokes-Absent id s t (logout _ _) = expiry-delete_self id s.sessions
Revokes-Absent id s t (other_kept _ keep _ ne) =
    delete_others-deletes keep id s.sessions s.sessions ne (λ a. a)
Revokes-Absent id s t (rotation _ _) = refl

-- A session that was revoked, by a logout, by destroyAllExcept of another one or by destroyAll,
-- is refused at every later time, whatever operations lie in between, as long as its id is not
-- drawn again.
pub revoked-invalid :
    (id : SessionId) (ids : List SessionId) (s t u : SessionStore) (now : ℕ)
    → Revokes id s t
    → Steps t ids u
    → All (λ x. x ≢ id) ids
    → validate_session id now u ≡ (false, u)
unfolding validate_session
revoked-invalid id ids s t u now cut made other =
    let gone = Steps-Absent id t u ids made other (Revokes-Absent id s t cut) in rw gone refl
