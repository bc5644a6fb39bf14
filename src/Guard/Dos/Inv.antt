-- ===== src/Guard/Dos/Inv.antt =====
-- The invariant of src/sl_dos_guard.c.
use securelink.Common.{
  ℕ, ◌+◌, ◌-◌, ◌^◌, ◌≤◌, ◌<◌, ◌≡◌, refl, ◌∙◌, inl, inr, Bool, some, arith, ltb, leb, ◌==◌,
  if◌then◌else◌, Bool-cases, Option-cases, length,
}
use securelink.Bytes.{u32}
use securelink.Guard.Table.{Key, bucket_count, find, put, insert}
use securelink.Guard.Table.Find.{find-insert_self, length-put, length-insert}
use securelink.Guard.Table.Total.{
  total, total-put, total-insert, find-le-total, Every, Every-put, Every-insert, Every-find,
}
use securelink.Guard.Dos.{
  IpEntry, DosGuard, cleared, incr, decr, find_or_create, admit_entry, admit, promote_entry,
  promote, release_entry, release,
}

abbrev pub half : IpEntry → ℕ
half e = e.half_open

abbrev pub est : IpEntry → ℕ
est e = e.established

abbrev pub Within : ℕ → IpEntry → Type 0
Within m e = e.half_open + e.established ≤ m

-- The global counts are the sums of the entries' counts, and the limits hold.
pub record IsValid (g : DosGuard) : Type 0 where
  pub full : length g.buckets ≡ bucket_count
  pub half_sum : total half g.buckets ≡ g.global_half_open
  pub est_sum : total est g.buckets ≡ g.global_established
  pub global_in : g.global_half_open + g.global_established ≤ g.max_global
  pub global_small : g.max_global < 2 ^ 32
  pub per_ip_small : g.max_per_ip < 2 ^ 32
  pub within : Every (Within g.max_per_ip) g.buckets

-- A new value for one entry, with the global counts changed by as much, keeps the invariant.
put-IsValid :
    (g : DosGuard) (ip : Key) (e e' : IpEntry) (gh ge : ℕ)
    → IsValid g
    → find g.buckets ip ≡ some e
    → gh + e.half_open ≡ g.global_half_open + e'.half_open
    → ge + e.established ≡ g.global_established + e'.established
    → gh + ge ≤ g.max_global
    → Within g.max_per_ip e'
    → IsValid
        (record g { global_half_open = gh; global_established = ge; buckets = put g.buckets ip e' })
put-IsValid g ip e e' gh ge v there hs es limit w = record {
  full = length-put g.buckets ip e' ∙ v.full;
  half_sum = omega (arith, total-put half g.buckets ip e e' v.full there, v.half_sum);
  est_sum = omega (arith, total-put est g.buckets ip e e' v.full there, v.est_sum);
  global_in = limit;
  global_small = v.global_small;
  per_ip_small = v.per_ip_small;
  within = Every-put (Within g.max_per_ip) g.buckets ip e' v.within w;
}

insert-IsValid :
    (g : DosGuard) (ip : Key)
    → IsValid g
    → IsValid (record g { buckets = insert g.buckets ip cleared })
insert-IsValid g ip v = record {
  full = length-insert g.buckets ip cleared ∙ v.full;
  half_sum = omega (arith, total-insert half g.buckets ip cleared v.full, v.half_sum);
  est_sum = omega (arith, total-insert est g.buckets ip cleared v.full, v.est_sum);
  global_in = v.global_in;
  global_small = v.global_small;
  per_ip_small = v.per_ip_small;
  within = Every-insert (Within g.max_per_ip) g.buckets ip cleared v.within (omega arith);
}

-- What an entry counts is within the limits.
pub entry_in :
    (g : DosGuard) (ip : Key) (e : IpEntry)
    → IsValid g
    → find g.buckets ip ≡ some e
    → (e.half_open ≤ g.global_half_open)
      × (e.established ≤ g.global_established)
      × (e.half_open + e.established ≤ g.max_per_ip)
entry_in g ip e v there = (
  omega (arith, find-le-total half g.buckets ip e cleared v.full there refl, v.half_sum),
  omega (arith, find-le-total est g.buckets ip e cleared v.full there refl, v.est_sum),
  Every-find (Within g.max_per_ip) g.buckets ip e v.within there,
)

admit_entry-IsValid :
    (now : ℕ) (ip : Key) (g : DosGuard) (e : IpEntry)
    → IsValid g
    → find g.buckets ip ≡ some e
    → g.global_half_open + g.global_established < g.max_global
    → IsValid (admit_entry now ip (some e, g)).1
unfolding admit_entry
admit_entry-IsValid now ip g e v there room =
    let (lh, le, lw) = entry_in g ip e v there in
    let e' : IpEntry = record e {
      half_open = incr e.half_open;
      oldest_half_open_ms = if e.half_open == 0 then now else e.oldest_half_open_ms;
    } in
    let gs = v.global_small in
    let ps = v.per_ip_small in
    elim (Bool-cases (leb g.max_per_ip (u32 (e.half_open + e.established)))) [
      | inl refused ↦ rw refused v
      | inr free ↦
          let space : e.half_open + e.established < g.max_per_ip = ground (arith, free) in
          rw free (
            put-IsValid g ip e e' (incr g.global_half_open) g.global_established v there
              (omega arith) (omega arith) (omega arith) (omega arith))
    ]

-- `sl_dos_guard_admit` keeps the invariant, whether it lets the peer in or not.
pub admit-IsValid :
    (now : ℕ) (alloc : Bool) (g : DosGuard) (ip : Key)
    → IsValid g
    → IsValid (admit now alloc g ip).1
unfolding admit find_or_create admit_entry
admit-IsValid now alloc g ip v =
    let gs = v.global_small in
    let gi = v.global_in in
    elim (Bool-cases (leb g.max_global (u32 (g.global_half_open + g.global_established)))) [
      | inl refused ↦ rw refused v
      | inr free ↦
          let room : g.global_half_open + g.global_established < g.max_global =
            ground (arith, free) in
          elim (Option-cases (find g.buckets ip)) [
            | inl missing ↦ elim (Bool-cases alloc) [
              | inl memory ↦
                  rw (free, find_or_create, missing, memory)
                    (admit_entry-IsValid now ip (record g { buckets = insert g.buckets ip cleared })
                      cleared (insert-IsValid g ip v) (find-insert_self g.buckets ip cleared v.full)
                      room)
              | inr memory ↦ rw (free, find_or_create, missing, memory, admit_entry) v
            ]
            | inr (e, there) ↦
                rw (free, find_or_create, there) (admit_entry-IsValid now ip g e v there room)
          ]
    ]

pub promote-IsValid : (g : DosGuard) (ip : Key) → IsValid g → IsValid (promote g ip)
unfolding promote promote_entry
promote-IsValid g ip v =
    let gs = v.global_small in
    let ps = v.per_ip_small in
    let gi = v.global_in in
    elim (Option-cases (find g.buckets ip)) [
      | inl missing ↦ rw (promote, missing) v
      | inr (e, there) ↦
          let (lh, le, lw) = entry_in g ip e v there in
          elim (Bool-cases (e.half_open == 0)) [
            | inl nothing ↦ rw (promote, there, nothing) v
            | inr more ↦
                let pos : 0 < e.half_open = ground (arith, more) in
                let e' : IpEntry = record e {
                  half_open = e.half_open - 1;
                  established = incr e.established;
                } in
                rw (promote, there, more)
                  (put-IsValid g ip e e' (decr g.global_half_open) (incr g.global_established) v
                    there (omega arith) (omega arith) (omega arith) (omega arith))
          ]
    ]

pub release-IsValid : (g : DosGuard) (ip : Key) → IsValid g → IsValid (release g ip)
unfolding release release_entry
release-IsValid g ip v =
    let gs = v.global_small in
    let ps = v.per_ip_small in
    let gi = v.global_in in
    elim (Option-cases (find g.buckets ip)) [
      | inl missing ↦ rw (release, missing) v
      | inr (e, there) ↦
          let (lh, le, lw) = entry_in g ip e v there in
          elim (Bool-cases (ltb 0 e.established)) [
            | inl held ↦
                let pos : 0 < e.established = ground (arith, held) in
                rw (release, there, held)
                  (put-IsValid g ip e (record e { established = e.established - 1 })
                    g.global_half_open (decr g.global_established) v there (omega arith)
                    (omega arith) (omega arith) (omega arith))
            | inr not_held ↦ elim (Bool-cases (ltb 0 e.half_open)) [
              | inl waiting ↦
                  let pos : 0 < e.half_open = ground (arith, waiting) in
                  rw (release, there, not_held, waiting)
                    (put-IsValid g ip e (record e { half_open = e.half_open - 1 })
                      (decr g.global_half_open) g.global_established v there (omega arith)
                      (omega arith) (omega arith) (omega arith))
              | inr idle ↦ rw (release, there, not_held, idle) v
            ]
          ]
    ]
