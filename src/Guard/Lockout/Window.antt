-- ===== src/Guard/Lockout/Window.antt =====
-- Whom src/sl_lockout.c locks out, and how long.
use native.Mathlib.Nat.{pow-le-pow_right, mul-le-mul, mul-le-mul_left}
use securelink.Common.{
  ℕ, ◌+◌, ◌-◌, ◌*◌, ◌^◌, ◌≤◌, ◌<◌, min, ◌≡◌, refl, sym, ap, ◌∙◌, ◌≢◌, ◌⊎◌, inl, inr, true, false,
  Option, none, some, List, [], ◌∷◌, arith, ltb, leb, if◌then◌else◌, Bool-cases, length,
}
use securelink.Bytes.{u32, u64}
use securelink.Guard.Table.{Key, bucket_count, same_key, Table, empty, find}
use securelink.Guard.Table.Find.{same_key_sound, same_key_refl, find-empty, length-empty}
use securelink.Guard.Lockout.{
  Entry, Lockout, Status, cleared, new, check, duration, bump, fail_key, succeed, allow, blocked,
}
use securelink.Guard.Lockout.Map.{
  entry_of, entry_of_lem, fail_key_own, fail_key_other, succeed_own, succeed_other, entry_of-find,
}

-- What a server reports, in order: failures with their times, and successes.
pub data Event : Type 0 where
  failure : ℕ → Key → Event
  success : Key → Event

unfoldable pub report : Lockout → Event → Lockout
report l (failure now key) = (fail_key now true l key).1
report l (success key) = succeed l key

unfoldable pub report_all : Lockout → List Event → Lockout
report_all l [] = l
report_all l (e ∷ es) = report_all (report l e) es

-- The failures of `key` since its last success, the independent count
unfoldable pub streak : Key → ℕ → List Event → ℕ
streak key n [] = n
streak key n (failure now k ∷ es) = streak key (if same_key k key then n + 1 else n) es
streak key n (success k ∷ es) = streak key (if same_key k key then 0 else n) es

key_cases : (a b : Key) → ((same_key a b ≡ true) × (a ≡ b)) ⊎ ((same_key a b ≡ false) × (a ≢ b))
key_cases a b = elim (Bool-cases (same_key a b)) [
  | inl e ↦ inl (e, same_key_sound a b e)
  | inr e ↦ inr (e, λ p. ground (arith, e, same_key_refl a, ap (same_key a) p))
]

bump-fails : (now : ℕ) (l : Lockout) (e : Entry) → (bump now l e).1.fails ≡ u32 (e.fails + 1)
unfolding bump
bump-fails now l e = ground arith

report_lem :
    (l : Lockout) (e : Event) (key : Key)
    → length l.buckets ≡ bucket_count
    → (entry_of l key).fails + 1 < 2 ^ 32
    → ((entry_of (report l e) key).fails ≡ streak key (entry_of l key).fails (e ∷ []))
      × (length (report l e).buckets ≡ bucket_count)
      × ((report l e).fail_threshold ≡ l.fail_threshold)
unfolding report streak
report_lem l (failure now k) key full small =
    let own = fail_key_own now l k full in
    elim (key_cases k key) [
      | inl (e, p) ↦
          let count : (entry_of l k).fails + 1 < 2 ^ 32 = rw p small in
          ground (arith, own, bump-fails now l (entry_of l k), e, p)
      | inr (e, p) ↦ ground (
        arith,
        own,
        e,
        entry_of-find l (fail_key now true l k).1 key (fail_key_other now l k key full p),
      )
    ]
report_lem l (success k) key full small =
    let own = succeed_own l k full in
    elim (key_cases k key) [
      | inl (e, p) ↦ ground (arith, own, e, p)
      | inr (e, p) ↦
          ground (arith, own, e, entry_of-find l (succeed l k) key (succeed_other l k key full p))
    ]

streak_step :
    (key : Key) (n : ℕ) (e : Event) (es : List Event)
    → (streak key n (e ∷ es) ≡ streak key (streak key n (e ∷ [])) es)
      × (streak key n (e ∷ []) ≤ n + 1)
unfolding streak
streak_step key n (failure now k) es = (refl, ground arith)
streak_step key n (success k) es = (refl, ground arith)

streak-le : (key : Key) (n : ℕ) (es : List Event) → streak key n es ≤ n + length es
unfolding streak
streak-le key n [] = omega arith
streak-le key n (failure now k ∷ es) = ground (arith, streak-le key (n + 1) es, streak-le key n es)
streak-le key n (success k ∷ es) = ground (arith, streak-le key 0 es, streak-le key n es)

report_all_lem :
    (es : List Event) (l : Lockout) (key : Key)
    → length l.buckets ≡ bucket_count
    → (entry_of l key).fails + length es < 2 ^ 32
    → ((entry_of (report_all l es) key).fails ≡ streak key (entry_of l key).fails es)
      × (length (report_all l es).buckets ≡ bucket_count)
      × ((report_all l es).fail_threshold ≡ l.fail_threshold)
unfolding report_all
report_all_lem [] l key full small = unfold streak in (refl, full, refl)
report_all_lem (e ∷ es) l key full small =
    let n = (entry_of l key).fails in
    let (count, full', same) = report_lem l e key full (omega arith) in
    let (step, le) = streak_step key n e es in
    let (counts, filled, sames) =
      report_all_lem es (report l e) key full' (omega (arith, count, le)) in
    (counts ∙ ap (λ (m : ℕ). streak key m es) count ∙ sym step, filled, sames ∙ same)

new_lem :
    (base_ms cap_ms threshold : ℕ) (l : Lockout) (key : Key)
    → new true base_ms cap_ms threshold ≡ some l
    → (length l.buckets ≡ bucket_count)
      × (entry_of l key ≡ cleared)
      × (l.fail_threshold ≡ threshold)
unfolding new
new_lem base_ms cap_ms threshold l key h =
    let cleared_all : (l.buckets ≡ empty Entry) × (l.fail_threshold ≡ threshold) = ground arith in
    (
      ap (λ (t : Table Entry). length t) cleared_all.0 ∙ length-empty Entry,
      entry_of_lem l key none
          (ap (λ (t : Table Entry). find t key) cleared_all.0 ∙ find-empty Entry key),
      cleared_all.1,
    )

-- The answer of `sl_lockout_fail` after any failures and successes of any keys, with fewer than
-- 2 ^ 32 of them and memory for each new key: the key is blocked exactly where its failures since its
-- last success, this one counted, reach the threshold.
pub fail_key-streak :
    (base_ms cap_ms threshold now : ℕ) (l : Lockout) (es : List Event) (key : Key)
    → new true base_ms cap_ms threshold ≡ some l
    → length es + 1 < 2 ^ 32
    → (fail_key now true (report_all l es) key).0
      ≡ (if leb threshold (streak key 0 es + 1) then blocked else allow)
unfolding bump
fail_key-streak base_ms cap_ms threshold now l es key h small =
    let (full, fresh, same) = new_lem base_ms cap_ms threshold l key h in
    let none_yet : (entry_of l key).fails ≡ 0 = ap (λ (e : Entry). e.fails) fresh in
    let (count, filled, kept) = report_all_lem es l key full (omega (arith, none_yet)) in
    let le = streak-le key 0 es in
    let own = fail_key_own now (report_all l es) key filled in
    ground (arith, own, count, none_yet, kept, same, le)

duration_bounds :
    (l : Lockout) (over : ℕ)
    → l.base_lockout_ms ≤ l.cap_lockout_ms
    → l.cap_lockout_ms < 2 ^ 32
    → (l.base_lockout_ms ≤ duration l over)
      × (duration l over ≤ l.cap_lockout_ms)
      × (duration l over ≡ min l.cap_lockout_ms (l.base_lockout_ms * 2 ^ min over 16))
unfolding duration
duration_bounds l over h small =
    let k = min over 16 in
    let pick : (if ltb over 16 then over else 16) ≡ k = ground arith in
    let small_pow : 2 ^ k ≤ 2 ^ 16 =
      pow-le-pow_right {n = 2} (omega arith) {i = k} {j = 16} (omega arith) in
    let large_pow : 2 ^ 0 ≤ 2 ^ k =
      pow-le-pow_right {n = 2} (omega arith) {i = 0} {j = k} (omega arith) in
    let prod : l.base_lockout_ms * 2 ^ k ≤ 2 ^ 32 * 2 ^ 16 =
      (let base_small : l.base_lockout_ms ≤ 2 ^ 32 = omega arith in
        mul-le-mul base_small small_pow) in
    let grown : l.base_lockout_ms * 1 ≤ l.base_lockout_ms * 2 ^ k =
      mul-le-mul_left l.base_lockout_ms large_pow in
    rw pick (ground (arith, prod, grown))

leb-true : (a b : ℕ) → a ≤ b → leb a b ≡ true
leb-true a b h = ground arith

check-found :
    (t : ℕ) (l : Lockout) (key : Key) (e : Entry)
    → find l.buckets key ≡ some e
    → check t l key ≡ (if ltb t e.locked_until_ms then blocked else allow)
unfolding check
check-found t l key e h =
    ap
      (λ (o : Option Entry). elim o as (λ _. Status) [
        | none ↦ allow
        | some e ↦ if ltb t e.locked_until_ms then blocked else allow
      ])
      h

-- A failure that reaches the threshold, where neither the count nor the clock wraps and the base is
-- at most the cap, blocks the key: `sl_lockout_check` blocks it at each time before the end of the
-- window and allows it from then on. The window is the base doubled with each failure past the
-- threshold, sixteen times at most, within the cap, and at least the base.
pub fail_key-locks :
    (now t : ℕ) (l : Lockout) (key : Key)
    → length l.buckets ≡ bucket_count
    → l.fail_threshold ≤ (entry_of l key).fails + 1
    → (entry_of l key).fails + 1 < 2 ^ 32
    → l.base_lockout_ms ≤ l.cap_lockout_ms
    → l.cap_lockout_ms < 2 ^ 32
    → now + l.cap_lockout_ms < 2 ^ 64
    → let over = (entry_of l key).fails + 1 - l.fail_threshold in
      let window = min l.cap_lockout_ms (l.base_lockout_ms * 2 ^ min over 16) in
      ((fail_key now true l key).0 ≡ blocked)
      × (check t (fail_key now true l key).1 key
          ≡ (if ltb t (now + window) then blocked else allow))
      × (l.base_lockout_ms ≤ window)
      × (window ≤ l.cap_lockout_ms)
unfolding bump
fail_key-locks now t l key full over count le small time =
    let n = (entry_of l key).fails + 1 in
    let wrap : u32 n ≡ n = omega arith in
    let own = fail_key_own now l key full in
    let (low, high, is) = duration_bounds l (n - l.fail_threshold) le small in
    let sum : u64 (now + duration l (n - l.fail_threshold))
        ≡ now + duration l (n - l.fail_threshold) =
      omega arith in
    let bumped : bump now l (entry_of l key) ≡ (
      blocked,
      record { fails = n; locked_until_ms = now + duration l (n - l.fail_threshold) },
    ) =
      rw (wrap, leb-true l.fail_threshold n over, sum) refl in
    let opens : check t (fail_key now true l key).1 key
        ≡ (if ltb t (now + duration l (n - l.fail_threshold)) then blocked else allow) =
      check-found t (fail_key now true l key).1 key (bump now l (entry_of l key)).1 own.1
      ∙ ap (λ (e : Status × Entry). if ltb t e.1.locked_until_ms then blocked else allow) bumped in
    rw (← is) (own.2 ∙ ap (λ (e : Status × Entry). e.0) bumped, opens, low, high)
