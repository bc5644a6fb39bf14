-- ===== src/Ident/RpcId.antt =====
-- src/sl_rpc_id.c: the numbers of remote calls.
use securelink.Common.{
  ℕ, zero, suc, ◌+◌, ◌-◌, ◌^◌, min, ◌≡◌, refl, ap, ◌∙◌, Bool, true, false, arith, ltb, leb, ◌==◌,
  if◌then◌else◌,
}
use securelink.Bytes.{u32}

abbrev pub id_reserved : ℕ
id_reserved = 0

abbrev pub u32_max : ℕ
u32_max = 2 ^ 32 - 1

pub record RpcAlloc : Type 0 where
  pub next : ℕ
  pub allocated : ℕ
  pub exhausted : Bool

-- `sl_rpc_id_init`
unfoldable pub rpc_init : RpcAlloc
rpc_init = record { next = 1; allocated = 0; exhausted = false }

-- `sl_rpc_id_next`
unfoldable pub rpc_next : RpcAlloc → ℕ × RpcAlloc
rpc_next a =
    if a.exhausted
    then (id_reserved, a)
    else if a.next == u32_max
    then (a.next, record a { exhausted = true; allocated = u32 (a.allocated + 1) })
    else (a.next, record a { next = u32 (a.next + 1); allocated = u32 (a.allocated + 1) })

-- `sl_rpc_id_is_exhausted`
unfoldable pub is_exhausted : RpcAlloc → Bool
is_exhausted a = a.exhausted

-- `sl_rpc_id_allocated_count`
unfoldable pub allocated_count : RpcAlloc → ℕ
allocated_count a = a.allocated

-- The allocator after `k` calls
unfoldable pub rpc_after : ℕ → RpcAlloc → RpcAlloc
rpc_after zero a = a
rpc_after (suc k) a = (rpc_next (rpc_after k a)).1

-- What `k` calls leave
abbrev pub rpc_state : ℕ → RpcAlloc
rpc_state k =
    if ltb k u32_max
    then record { next = k + 1; allocated = k; exhausted = false }
    else record { next = u32_max; allocated = u32_max; exhausted = true }

rpc_step : (k : ℕ) → (rpc_next (rpc_state k)).1 ≡ rpc_state (suc k)
unfolding rpc_next
rpc_step k = ground arith

rpc_after_lem : (k : ℕ) → rpc_after k rpc_init ≡ rpc_state k
unfolding rpc_after rpc_init
rpc_after_lem zero = refl
rpc_after_lem (suc k) = ap (λ (a : RpcAlloc). (rpc_next a).1) (rpc_after_lem k) ∙ rpc_step k

-- The calls of `sl_rpc_id_next` on a fresh allocator give 1, 2, 3 and so on up to 2 ^ 32 - 1, each
-- once, and 0 from then on; the count of numbers handed out stays exact.
pub rpc_next-fresh :
    (k : ℕ)
    → let a = rpc_after k rpc_init in
      ((rpc_next a).0 ≡ (if ltb k u32_max then k + 1 else id_reserved))
      × (allocated_count a ≡ min k u32_max)
      × (is_exhausted a ≡ leb u32_max k)
unfolding rpc_next allocated_count is_exhausted
rpc_next-fresh k = ground (arith, rpc_after_lem k)
