-- ===== src/Verilog/Actions.antt =====
-- The actions that src/verilog2hif/verilog_parser_extension.cpp makes of statements. What the parser
-- made before (an assignment, a call, a `case` and so on) is a parameter `A`, and a value is a `V`.
pub mod Watching
pub mod Edges
pub mod Procedural
pub mod Append
pub mod Analog
pub mod Events
pub mod EventControl
pub mod EventList
mod Tests
use hif_frontend.Common.{ℕ, zero, suc, ◌≡◌, refl, ap, Bool, List, Bytes}

-- A value and its properties `PROPERTY_SENSITIVE_POS` and `PROPERTY_SENSITIVE_NEG`.
pub record Watched (V : Type 0) : Type 0 where
  pub value : V
  pub sensitive_pos : Bool
  pub sensitive_neg : Bool

-- `sensitivity`, `sensitivityPos` and `sensitivityNeg` of a `Wait`.
pub record Sensitivity (V : Type 0) : Type 0 where
  pub any : List (Watched V)
  pub rising : List (Watched V)
  pub falling : List (Watched V)

-- Actions, and a `BList<Action>`.
mutual
  pub data Action (A V : Type 0) : Type 0 where
    given : A → Action A V
    wait_for : (time : V) → Action A V
    wait_on : Sensitivity V → (actions : Actions A V) → Action A V
    -- a block: `do … while (false)`, with its name
    block : (name : Bytes) → (actions : Actions A V) → Action A V

  pub data Actions (A V : Type 0) : Type 0 where
    empty : Actions A V
    and_then : Action A V → Actions A V → Actions A V

module _ {A V : Type 0} where
  -- `merge`.
  infixr 60 ◌+++◌
  abbrev pub ◌+++◌ : Actions A V → Actions A V → Actions A V
  empty +++ ys = ys
  and_then x xs +++ ys = and_then x (xs +++ ys)

  abbrev pub push_back : Actions A V → Action A V → Actions A V
  push_back xs x = xs +++ and_then x empty

  abbrev pub count : Actions A V → ℕ
  count empty = 0
  count (and_then x xs) = suc (count xs)

  -- `it.remove()` at a place.
  abbrev pub remove_at : ℕ → Actions A V → Actions A V
  remove_at n empty = empty
  remove_at zero (and_then x xs) = xs
  remove_at (suc n) (and_then x xs) = and_then x (remove_at n xs)

  pub +++-empty : (xs : Actions A V) → xs +++ empty ≡ xs
  +++-empty empty = refl
  +++-empty (and_then x xs) = ap (and_then x) (+++-empty xs)

  pub +++_assoc : (xs ys zs : Actions A V) → (xs +++ ys) +++ zs ≡ xs +++ (ys +++ zs)
  +++_assoc empty ys zs = refl
  +++_assoc (and_then x xs) ys zs = ap (and_then x) (+++_assoc xs ys zs)

  pub remove_at-append :
      (xs ys : Actions A V) (x : Action A V)
      → remove_at (count xs) (xs +++ and_then x ys) ≡ xs +++ ys
  remove_at-append empty ys x = refl
  remove_at-append (and_then z xs) ys x = ap (and_then z) (remove_at-append xs ys x)
