-- ===== src/Guard/Lockout/Map.antt =====
-- What the operations of src/sl_lockout.c do, key by key.
use securelink.Common.{
  ℕ, ◌+◌, ◌≡◌, refl, ap, ◌∙◌, ◌≢◌, inl, inr, Bool, true, Option, none, some, Option-cases, length,
}
use securelink.Bytes.{u64}
use securelink.Guard.Table.{Key, bucket_count, Table, find, put, insert}
use securelink.Guard.Table.Find.{
  find-put_self, find-put_ne, find-insert_self, find-insert_ne, length-put, length-insert,
}
use securelink.Guard.Lockout.{
  Entry, Lockout, cleared, find_or_create, duration, bump, fail_entry, fail_key, succeed,
}

-- The entry that an operation works on: the key's own, or a cleared one.
unfoldable pub entry_of : Lockout → Key → Entry
entry_of l key = elim (find l.buckets key) [ some e ↦ e | none ↦ cleared ]

found_lem :
    (l : Lockout) (key : Key) (e : Entry) (create : Bool)
    → find l.buckets key ≡ some e
    → find_or_create true l key create ≡ (some e, l)
unfolding find_or_create
found_lem l key e create h = rw (find_or_create, h) refl

missing_lem :
    (l : Lockout) (key : Key)
    → find l.buckets key ≡ none
    → find_or_create true l key true ≡ (
      some cleared,
      record l { buckets = insert l.buckets key cleared; count = u64 (l.count + 1) },
    )
unfolding find_or_create
missing_lem l key h = rw (find_or_create, h) refl

pub entry_of_lem :
    (l : Lockout) (key : Key) (o : Option Entry)
    → find l.buckets key ≡ o
    → entry_of l key ≡ elim o [ some e ↦ e | none ↦ cleared ]
unfolding entry_of
entry_of_lem l key o h =
    ap (λ (o : Option Entry). elim o as (λ _. Entry) [ some e ↦ e | none ↦ cleared ]) h

-- The new state of `sl_lockout_fail` on an entry that `find_or_create` gives
fail_key-found :
    (now : ℕ) (l l' : Lockout) (key : Key) (e : Entry)
    → find_or_create true l key true ≡ (some e, l')
    → fail_key now true l key
      ≡ ((bump now l' e).0, record l' { buckets = put l'.buckets key (bump now l' e).1 })
unfolding fail_key fail_entry
fail_key-found now l l' key e h = ap (fail_entry now key) h

-- The entry that `sl_lockout_fail` changes stands in the table that `find_or_create` leaves.
record Found (l : Lockout) (key : Key) : Type 0 where
  table : Table Entry
  count : ℕ
  made :
      find_or_create true l key true
      ≡ (some (entry_of l key), record l { buckets = table; count = count })
  full : length table ≡ bucket_count
  own : find table key ≡ some (entry_of l key)
  others : (other : Key) → key ≢ other → find table other ≡ find l.buckets other

found : (l : Lockout) (key : Key) → length l.buckets ≡ bucket_count → Found l key
found l key full = elim (Option-cases (find l.buckets key)) [
  | inl missing ↦ record {
    table = insert l.buckets key cleared;
    count = u64 (l.count + 1);
    made = rw (entry_of_lem l key none missing) (missing_lem l key missing);
    full = length-insert l.buckets key cleared ∙ full;
    own = rw (entry_of_lem l key none missing) (find-insert_self l.buckets key cleared full);
    others = λ other ne. find-insert_ne l.buckets key other cleared full ne;
  }
  | inr (e, there) ↦ record {
    table = l.buckets;
    count = l.count;
    made = rw (entry_of_lem l key (some e) there) (found_lem l key e true there);
    full = full;
    own = rw (entry_of_lem l key (some e) there) there;
    others = λ other ne. refl;
  }
]

-- `sl_lockout_fail`, where the allocator has memory: the key's entry is the one that `bump` makes of
-- it, the answer is that of `bump`, and the settings stay.
pub fail_key_own :
    (now : ℕ) (l : Lockout) (key : Key)
    → length l.buckets ≡ bucket_count
    → let (status, l') = fail_key now true l key in
      (entry_of l' key ≡ (bump now l (entry_of l key)).1)
      × (find l'.buckets key ≡ some (bump now l (entry_of l key)).1)
      × (status ≡ (bump now l (entry_of l key)).0)
      × (length l'.buckets ≡ bucket_count)
      × (l'.fail_threshold ≡ l.fail_threshold)
      × (l'.base_lockout_ms ≡ l.base_lockout_ms)
      × (l'.cap_lockout_ms ≡ l.cap_lockout_ms)
unfolding bump duration entry_of
fail_key_own now l key full =
    let f = found l key full in
    let e' = (bump now l (entry_of l key)).1 in
    let own = find-put_self f.table key (entry_of l key) e' f.full f.own in
    rw
      (fail_key-found now l (record l { buckets = f.table; count = f.count }) key (entry_of l key)
        f.made)
      (
        ap (λ (o : Option Entry). elim o as (λ _. Entry) [ some e ↦ e | none ↦ cleared ]) own,
        own,
        refl,
        length-put f.table key e' ∙ f.full,
        refl,
        refl,
        refl,
      )

-- Every other key has the entry that it had.
pub fail_key_other :
    (now : ℕ) (l : Lockout) (key other : Key)
    → length l.buckets ≡ bucket_count
    → key ≢ other
    → find (fail_key now true l key).1.buckets other ≡ find l.buckets other
unfolding bump duration entry_of
fail_key_other now l key other full ne =
    let f = found l key full in
    let e' = (bump now l (entry_of l key)).1 in
    rw
      (fail_key-found now l (record l { buckets = f.table; count = f.count }) key (entry_of l key)
        f.made)
      (find-put_ne f.table key other e' f.full ne ∙ f.others other ne)

-- `sl_lockout_succeed` clears the key's entry where there is one.
pub succeed_own :
    (l : Lockout) (key : Key)
    → length l.buckets ≡ bucket_count
    → (entry_of (succeed l key) key ≡ cleared)
      × (length (succeed l key).buckets ≡ bucket_count)
      × ((succeed l key).fail_threshold ≡ l.fail_threshold)
unfolding succeed entry_of
succeed_own l key full = elim (Option-cases (find l.buckets key)) [
  | inl missing ↦ rw (succeed, missing) (entry_of_lem l key none missing, full, refl)
  | inr (e, there) ↦
      rw (succeed, there)
        (
          ap (λ (o : Option Entry). elim o as (λ _. Entry) [ some e ↦ e | none ↦ cleared ])
              (find-put_self l.buckets key e cleared full there),
          length-put l.buckets key cleared ∙ full,
          refl,
        )
]

-- Every other key has the entry that it had.
pub succeed_other :
    (l : Lockout) (key other : Key)
    → length l.buckets ≡ bucket_count
    → key ≢ other
    → find (succeed l key).buckets other ≡ find l.buckets other
unfolding succeed
succeed_other l key other full ne = elim (Option-cases (find l.buckets key)) [
  | inl missing ↦ rw (succeed, missing) refl
  | inr (e, there) ↦ rw (succeed, there) (find-put_ne l.buckets key other cleared full ne)
]

-- What a key's entry is follows from what `find` gives.
pub entry_of-find :
    (l l' : Lockout) (key : Key)
    → find l'.buckets key ≡ find l.buckets key
    → entry_of l' key ≡ entry_of l key
unfolding entry_of
entry_of-find l l' key h =
    ap (λ (o : Option Entry). elim o as (λ _. Entry) [ some e ↦ e | none ↦ cleared ]) h
