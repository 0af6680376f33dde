-- ===== src/Services/SessionStore.antt =====
-- src/services/session-store.ts: `SessionStore`. A session id is the list of its character codes;
-- the map is an association list in the order of insertion. The id that randomBytes draws and the
-- clock are arguments.
use bitsby.Prelude.{
  ℕ, suc, ◌+◌, ◌*◌, Bool, true, false, not, Option, none, some, List, [], ◌∷◌, ltb, leb, list_eq,
  length, if◌then◌else◌,
}
pub mod Bounded
pub mod Valid
pub mod Revoked
pub mod Tests

abbrev pub SessionId : Type 0
SessionId = List ℕ

abbrev pub default_ttl_ms : ℕ
default_ttl_ms = 30 * 24 * 60 * 60 * 1000

abbrev pub default_max_sessions : ℕ
default_max_sessions = 100

-- `SessionEntry` under its id
pub record Session : Type 0 where
  pub id : SessionId
  pub expires_at : ℕ

pub record SessionStore : Type 0 where
  pub sessions : List Session
  pub ttl_ms : ℕ
  pub max_sessions : ℕ

abbrev pub new_store : ℕ → ℕ → SessionStore
new_store ttl_ms max_sessions = record {
  sessions = [];
  ttl_ms = ttl_ms;
  max_sessions = max_sessions;
}

-- this.sessions.get(id)
abbrev pub expiry_in : List Session → SessionId → Option ℕ
expiry_in [] id = none
expiry_in (s ∷ sessions) id = if list_eq s.id id then some s.expires_at else expiry_in sessions id

-- this.sessions.delete(id)
abbrev pub delete_in : SessionId → List Session → List Session
delete_in id [] = []
delete_in id (s ∷ sessions) =
    let rest = delete_in id sessions in if list_eq s.id id then rest else s ∷ rest

-- this.sessions.set(id, { expiresAt }): an id that is there keeps its place.
abbrev pub set_in : SessionId → ℕ → List Session → List Session
set_in id expires_at [] = record { id = id; expires_at = expires_at } ∷ []
set_in id expires_at (s ∷ sessions) =
    let rest = set_in id expires_at sessions in
    if list_eq s.id id then record s { expires_at = expires_at } ∷ sessions else s ∷ rest

-- The loop of evictOldest: `oldestExpiry` and `oldestId`, with `none` for Infinity and null.
abbrev pub oldest_from : Option Session → List Session → Option Session
oldest_from oldest [] = oldest
oldest_from none (s ∷ sessions) = oldest_from (some s) sessions
oldest_from (some o) (s ∷ sessions) =
    oldest_from (if ltb s.expires_at o.expires_at then some s else some o) sessions

abbrev pub delete_oldest : Option Session → List Session → List Session
delete_oldest none sessions = sessions
delete_oldest (some s) sessions = delete_in s.id sessions

abbrev pub evict_oldest : List Session → List Session
evict_oldest sessions = delete_oldest (oldest_from none sessions) sessions

unfoldable pub create_session : SessionId → ℕ → SessionStore → SessionId × SessionStore
create_session id now store =
    let sessions =
      (if leb store.max_sessions (length store.sessions)
        then evict_oldest store.sessions
        else store.sessions) in
    (id, record store { sessions = set_in id (now + store.ttl_ms) sessions })

abbrev pub validate_entry : SessionId → ℕ → SessionStore → Option ℕ → Bool × SessionStore
validate_entry id now store none = (false, store)
validate_entry id now store (some expires_at) =
    if leb expires_at now
    then (false, record store { sessions = delete_in id store.sessions })
    else (true, record store { sessions = set_in id (now + store.ttl_ms) store.sessions })

unfoldable pub validate_session : SessionId → ℕ → SessionStore → Bool × SessionStore
validate_session id now store = validate_entry id now store (expiry_in store.sessions id)

unfoldable pub destroy_session : SessionId → SessionStore → SessionStore
destroy_session id store = record store { sessions = delete_in id store.sessions }

-- The loop of destroyAllExcept over the keys.
abbrev pub delete_others : SessionId → List Session → List Session → List Session
delete_others keep [] sessions = sessions
delete_others keep (k ∷ keys) sessions =
    delete_others keep keys (if list_eq k.id keep then sessions else delete_in k.id sessions)

unfoldable pub destroy_all_except : SessionId → SessionStore → SessionStore
destroy_all_except keep store = record store {
  sessions = delete_others keep store.sessions store.sessions;
}

unfoldable pub destroy_all : SessionStore → SessionStore
destroy_all store = record store { sessions = [] }

unfoldable pub size : SessionStore → ℕ
size store = length store.sessions

-- One operation, with the id it mints, if it does.
pub data Step : SessionStore → Option SessionId → SessionStore → Type 0 where
  creates :
      (id : SessionId) (now : ℕ) (s : SessionStore) → Step s (some id) (create_session id now s).1
  validates :
      (id : SessionId) (now : ℕ) (s : SessionStore) → Step s none (validate_session id now s).1
  destroys : (id : SessionId) (s : SessionStore) → Step s none (destroy_session id s)
  destroys_others : (id : SessionId) (s : SessionStore) → Step s none (destroy_all_except id s)
  destroys_all : (s : SessionStore) → Step s none (destroy_all s)

-- Any number of operations, with the ids they mint.
pub data Steps : SessionStore → List SessionId → SessionStore → Type 0 where
  stay : (s : SessionStore) → Steps s [] s
  next :
      (s t u : SessionStore) (ids : List SessionId) → Step s none t → Steps t ids u → Steps s ids u
  mints :
      (s t u : SessionStore) (id : SessionId) (ids : List SessionId)
      → Step s (some id) t
      → Steps t ids u
      → Steps s (id ∷ ids) u
