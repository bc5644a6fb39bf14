-- ===== src/Limit/Flow/Link.antt =====
-- The two ends of a stream, with the data and the window updates between them.
use securelink.Common.{ℕ, ◌+◌, ◌-◌, ◌≤◌, ◌≡◌, ap, some, List, [], ◌∷◌, ◌++◌, arith}
use securelink.Limit.Flow.{
  max_window, FlowCtrl, init_with, charge_send, charge_recv, grant_recv, grant_send,
}

pub sum : List ℕ → ℕ
sum [] = 0
sum (x ∷ xs) = x + sum xs

-- Frames travel from the sender, window updates back to it, both in order.
pub record Link : Type 0 where
  pub sender : FlowCtrl
  pub receiver : FlowCtrl
  pub frames : List ℕ
  pub windows : List ℕ

pub data Step : Link → Link → Type 0 where
  send :
      (l : Link) (n : ℕ) (fc : FlowCtrl)
      → charge_send l.sender n ≡ some fc
      → Step l (record l { sender = fc; frames = l.frames ++ (n ∷ []) })
  receive :
      (l : Link) (n : ℕ) (rest : List ℕ) (fc : FlowCtrl)
      → l.frames ≡ n ∷ rest
      → charge_recv l.receiver n ≡ some fc
      → Step l (record l { receiver = fc; frames = rest })
  grant :
      (l : Link) (n : ℕ) (fc : FlowCtrl)
      → grant_recv l.receiver n ≡ some fc
      → Step l (record l { receiver = fc; windows = l.windows ++ (n ∷ []) })
  credit :
      (l : Link) (n : ℕ) (rest : List ℕ) (fc : FlowCtrl)
      → l.windows ≡ n ∷ rest
      → grant_send l.sender n ≡ some fc
      → Step l (record l { sender = fc; windows = rest })

pub data Reach (l : Link) : Link → Type 0 where
  here : Reach l l
  next : {m k : Link} → Reach l m → Step m k → Reach l k

abbrev pub start : ℕ → Link
start initial = record {
  sender = init_with initial;
  receiver = init_with initial;
  frames = [];
  windows = [];
}

-- What the sender may send, what it sent and what it will be allowed make up the receiver's window.
pub record IsBalanced (l : Link) : Type 0 where
  pub shared : l.sender.send_credit + sum l.frames + sum l.windows ≡ l.receiver.recv_window
  pub capped : l.receiver.recv_window ≤ max_window

sum-append : (xs : List ℕ) (n : ℕ) → sum (xs ++ (n ∷ [])) ≡ sum xs + n
unfolding sum
sum-append [] n = omega arith
sum-append (x ∷ xs) n = omega (arith, sum-append xs n)

sum-cons : (xs rest : List ℕ) (n : ℕ) → xs ≡ n ∷ rest → sum xs ≡ n + sum rest
unfolding sum
sum-cons xs rest n e = ap sum e

Step-IsBalanced : {l m : Link} → Step l m → IsBalanced l → IsBalanced m
unfolding charge_send charge_recv grant_recv grant_send
Step-IsBalanced (send l n fc e) b = ground (arith, sum-append l.frames n)
Step-IsBalanced (receive l n rest fc f e) b = ground (arith, sum-cons l.frames rest n f)
Step-IsBalanced (grant l n fc e) b = ground (arith, sum-append l.windows n)
Step-IsBalanced (credit l n rest fc f e) b = ground (arith, sum-cons l.windows rest n f)

Reach-IsBalanced : {l m : Link} → IsBalanced l → Reach l m → IsBalanced m
Reach-IsBalanced b here = b
Reach-IsBalanced b (next r s) = Step-IsBalanced s (Reach-IsBalanced b r)

start-IsBalanced : (initial : ℕ) → initial ≤ max_window → IsBalanced (start initial)
unfolding init_with sum
start-IsBalanced initial h = omega arith

-- Whatever the two ends did, from equal windows of at most `max_window` on: the next frame that the
-- sender was allowed to send does not break the receiver's window.
pub receive_accepted :
    (initial n : ℕ) (rest : List ℕ) (l : Link)
    → initial ≤ max_window
    → Reach (start initial) l
    → l.frames ≡ n ∷ rest
    → charge_recv l.receiver n
      ≡ some (record l.receiver { recv_window = l.receiver.recv_window - n })
unfolding charge_recv
receive_accepted initial n rest l h r f =
    let b = Reach-IsBalanced (start-IsBalanced initial h) r in
    ground (arith, b.shared, b.capped, sum-cons l.frames rest n f)

-- In the same way, the next window update that the receiver was allowed to grant does not overflow
-- the sender's credit, which stays within the receiver's window.
pub credit_accepted :
    (initial n : ℕ) (rest : List ℕ) (l : Link)
    → initial ≤ max_window
    → Reach (start initial) l
    → l.windows ≡ n ∷ rest
    → (grant_send l.sender n ≡ some (record l.sender { send_credit = l.sender.send_credit + n }))
      × (l.sender.send_credit + n ≤ l.receiver.recv_window)
unfolding grant_send
credit_accepted initial n rest l h r f =
    let b = Reach-IsBalanced (start-IsBalanced initial h) r in
    ground (arith, b.shared, b.capped, sum-cons l.windows rest n f)
