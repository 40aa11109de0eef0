-- ===== src/Hif.antt =====
-- The nodes of the HIF tree that the two front ends build, with what the sources set on them
-- (`new Bit()`, `setLogic`, `setSpan` and so on); the classes are those of the hif-core library.
-- A node is a value: a copy of a node and the node are the same here.
use hif_frontend.Common.{ℕ, Bool, Option, List, Bytes}
use hif_frontend.Common.Int.{ℤ}

pub data BitConstant : Type 0 where
  bit_zero bit_one bit_x bit_z bit_u bit_l bit_w bit_h bit_dontcare : BitConstant

pub data RangeDirection : Type 0 where
  dir_upto dir_downto : RangeDirection

pub data TimeUnit : Type 0 where
  time_fs time_ps time_ns time_us time_ms time_sec time_min time_hr : TimeUnit

-- `R` is the type `double`.
mutual
  pub data Value (R : Type 0) : Type 0 where
    bit_value : BitConstant → Value R
    bitvector_value : Bytes → Value R
    int_value : ℤ → Value R
    real_value : R → Value R
    char_value : ℕ → Value R
    string_value : Bytes → Value R
    time_value : R → TimeUnit → Value R
    identifier : (name : Bytes) → Value R
    -- a call `prefix'name` of an attribute
    function_call : (name : Bytes) → (prefix : Value R) → Value R
    range : Range R → Value R

  -- A range as the source makes it: `new Range()`, `new Range(l, r)`, or bounds that are set.
  pub data Range (R : Type 0) : Type 0 where
    empty_range : Range R
    int_range : (left right : ℤ) → Range R
    bounds : (left : Value R) → RangeDirection → (right : Value R) → Range R
    left_bound : RangeDirection → (left : Value R) → Range R
    -- the left bound alone is set, and no direction
    attribute_range : (left : Value R) → Range R

pub data HifType (R : Type 0) : Type 0 where
  bit : (logic resolved : Bool) → HifType R
  int : (is_signed : Bool) → (span : Option (Range R)) → HifType R
  boolean : HifType R
  time : HifType R
  bitvector : (logic resolved : Bool) → (span : Range R) → HifType R
  array : (span : Range R) → (elements : HifType R) → HifType R
  unsigned : (span : Option (Range R)) → HifType R
  signed : (span : Option (Range R)) → HifType R
  string : (span : Option (Range R)) → HifType R
  character : HifType R
  real : (span : Range R) → HifType R
  type_reference : (name : Bytes) → (ranges : List (Range R)) → HifType R
