-- ===== src/Limit/Flow.antt =====
-- src/sl_flow_control.c: the windows of one stream.
pub mod Link
use securelink.Common.{ℕ, ◌+◌, ◌-◌, ◌*◌, ◌^◌, Bool, Option, none, some, ltb, leb, if◌then◌else◌}

abbrev pub max_window : ℕ
max_window = 2 ^ 30

-- Both fields are `int64_t`. They start from a `uint32_t`, a charge is refused where it would pass
-- 0, and a grant where it would pass `max_window`; so numbers from 0 on hold all their values.
pub record FlowCtrl : Type 0 where
  pub send_credit : ℕ
  pub recv_window : ℕ

-- `sl_flow_init_with`
unfoldable pub init_with : ℕ → FlowCtrl
init_with initial = record { send_credit = initial; recv_window = initial }

-- `sl_flow_init`
unfoldable pub init : FlowCtrl
unfolding init_with
init = init_with (64 * 1024)

-- `none` is the return value -1, for which nothing changes.
-- `sl_flow_charge_send`
unfoldable pub charge_send : FlowCtrl → ℕ → Option FlowCtrl
charge_send fc n =
    if ltb fc.send_credit n then none else some (record fc { send_credit = fc.send_credit - n })

-- `sl_flow_charge_recv`
unfoldable pub charge_recv : FlowCtrl → ℕ → Option FlowCtrl
charge_recv fc n =
    if ltb fc.recv_window n then none else some (record fc { recv_window = fc.recv_window - n })

-- `sl_flow_grant_recv`
unfoldable pub grant_recv : FlowCtrl → ℕ → Option FlowCtrl
grant_recv fc n =
    if ltb max_window (fc.recv_window + n)
    then none
    else some (record fc { recv_window = fc.recv_window + n })

-- `sl_flow_grant_send`
unfoldable pub grant_send : FlowCtrl → ℕ → Option FlowCtrl
grant_send fc n =
    if ltb max_window (fc.send_credit + n)
    then none
    else some (record fc { send_credit = fc.send_credit + n })

-- `sl_flow_can_send`
unfoldable pub can_send : FlowCtrl → ℕ → Bool
can_send fc n = leb n fc.send_credit
