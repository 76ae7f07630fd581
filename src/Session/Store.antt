-- ===== src/Session/Store.antt =====
-- src/store.ts: the part of `MemoryUserStore` that the session events use. A map is a function on
-- its keys.
use Prim.Native.String
use intern_notifs.Base.{
  ℕ, String, Bool, true, false, not, Option, none, some, str_eq, ◌==◌, if◌then◌else◌, is_some,
}
use intern_notifs.Session.Machine.{ApplicationSession}

pub data ApplicationStatus : Type 0 where
  saved applied assessment interview offer rejected withdrawn : ApplicationStatus

-- `detection` is its time; `is_partner` is `applyMode === 'partner'`, where the mode is set.
pub record ApplicationRecord : Type 0 where
  pub application_id : String
  pub job_id : String
  pub status : ApplicationStatus
  pub updated_at : ℕ
  pub created_at : ℕ
  pub applied_at : Option ℕ
  pub queued_at : Option ℕ
  pub detected_at : Option ℕ
  pub notes : Option String
  pub is_partner : Option Bool

pub record UserStore : Type 0 where
  pub sessions : String → Option ApplicationSession
  pub applications : String → Option ApplicationRecord
  pub deletion_pending : String → Bool

-- `${userId}#${id}`
abbrev pub row_key : String → String → String
row_key user_id id = String.◌++◌ (String.◌++◌ user_id "#") id

-- `map.set(key, value)`
unfoldable pub update : {A : Type 0} → (String → Option A) → String → A → String → Option A
update m k a j = if str_eq k j then some a else m j

abbrev version_of : Option ApplicationSession → Option ℕ
version_of none = none
version_of (some s) = some s.version

-- `current?.version !== expectedVersion`, for an expected version that is given
abbrev same_version : Option ApplicationSession → ℕ → Bool
same_version none v = false
same_version (some s) v = s.version == v

-- May the write go ahead? With no expected version, only where nothing is stored.
abbrev pub may_put : Option ApplicationSession → Option ℕ → Bool
may_put current (some v) = same_version current v
may_put current none = not (is_some current)

unfoldable pub put_application_session :
    UserStore → String → ApplicationSession → Option ℕ → UserStore × Bool
put_application_session store user_id value expected =
    let key = row_key user_id value.session_id in
    if store.deletion_pending user_id
    then (store, false)
    else if may_put (store.sessions key) expected
    then (record store { sessions = update store.sessions key value }, true)
    else (store, false)

-- `writable` throws where the account is being deleted: then there is no new store.
unfoldable pub put_application : UserStore → String → ApplicationRecord → Option UserStore
put_application store user_id value =
    if store.deletion_pending user_id
    then none
    else some (record store {
      applications = update store.applications (row_key user_id value.application_id) value;
    })
