-- ===== src/Guard/Lockout.antt =====
-- src/sl_lockout.c: failed attempts by key, and how long they lock it out. `now` is what the
-- monotonic clock says where the function asks for it, `alloc` whether the allocator has memory.
pub mod Map
pub mod Window
use securelink.Common.{
  ℕ, ◌+◌, ◌-◌, ◌*◌, ◌^◌, Bool, true, not, ◌&&◌, ◌||◌, Option, none, some, ltb, leb, ◌==◌,
  if◌then◌else◌,
}
use securelink.Bytes.{u32, u64}
use securelink.Guard.Table.{Key, Table, empty, find, put, insert}

pub record Entry : Type 0 where
  pub fails : ℕ
  pub locked_until_ms : ℕ

pub record Lockout : Type 0 where
  pub base_lockout_ms : ℕ
  pub cap_lockout_ms : ℕ
  pub fail_threshold : ℕ
  pub buckets : Table Entry
  pub count : ℕ

pub data Status : Type 0 where
  allow blocked : Status

-- What `calloc` makes of an entry
abbrev pub cleared : Entry
cleared = record { fails = 0; locked_until_ms = 0 }

-- `find_or_create`
unfoldable pub find_or_create : Bool → Lockout → Key → Bool → Option Entry × Lockout
find_or_create alloc l key create = elim (find l.buckets key) [
  | some e ↦ (some e, l)
  | none ↦
      if create && alloc
      then (
        some cleared,
        record l { buckets = insert l.buckets key cleared; count = u64 (l.count + 1) },
      )
      else (none, l)
]

-- `sl_lockout_new`
unfoldable pub new : Bool → ℕ → ℕ → ℕ → Option Lockout
new alloc base_lockout_ms cap_lockout_ms fail_threshold =
    if (base_lockout_ms == 0) || ltb cap_lockout_ms base_lockout_ms || (fail_threshold == 0)
    then none
    else if not alloc
    then none
    else some (record {
      base_lockout_ms = base_lockout_ms;
      cap_lockout_ms = cap_lockout_ms;
      fail_threshold = fail_threshold;
      buckets = empty Entry;
      count = 0;
    })

-- `sl_lockout_check`
unfoldable pub check : ℕ → Lockout → Key → Status
check now l key = elim (find l.buckets key) [
  | none ↦ allow
  | some e ↦ if ltb now e.locked_until_ms then blocked else allow
]

-- How long `sl_lockout_fail` locks for: the shift is by at most 16 places.
unfoldable pub duration : Lockout → ℕ → ℕ
duration l over =
    let dur = u64 (l.base_lockout_ms * 2 ^ (if ltb over 16 then over else 16)) in
    if ltb l.cap_lockout_ms dur then l.cap_lockout_ms else dur

-- What `sl_lockout_fail` does to the entry. The count wraps as `uint32_t`.
unfoldable pub bump : ℕ → Lockout → Entry → Status × Entry
bump now l e =
    let fails = u32 (e.fails + 1) in
    if leb l.fail_threshold fails
    then (
      blocked,
      record { fails = fails; locked_until_ms = u64 (now + duration l (fails - l.fail_threshold)) },
    )
    else (allow, record e { fails = fails })

-- The rest of `sl_lockout_fail`, with what `find_or_create` gave
unfoldable pub fail_entry : ℕ → Key → Option Entry × Lockout → Status × Lockout
fail_entry now key (none, l) = (blocked, l)
fail_entry now key (some e, l) =
    let (status, e') = bump now l e in (status, record l { buckets = put l.buckets key e' })

-- `sl_lockout_fail`
unfoldable pub fail_key : ℕ → Bool → Lockout → Key → Status × Lockout
fail_key now alloc l key = fail_entry now key (find_or_create alloc l key true)

-- `sl_lockout_succeed`
unfoldable pub succeed : Lockout → Key → Lockout
succeed l key = elim (find l.buckets key) [
  | none ↦ l
  | some e ↦ record l { buckets = put l.buckets key cleared }
]

-- `sl_lockout_size`
unfoldable pub size : Lockout → ℕ
size l = l.count
