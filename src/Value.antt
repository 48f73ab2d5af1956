-- ===== src/Value.antt =====
-- include/coreconfTypes.h: the tagged values, and the create functions of src/coreconfTypes.c.
--
-- A value owns what its pointers lead to, so a pointer is what it points to, and `Ref` a pointer
-- that may be NULL. A C string is its bytes in front of the NUL, a double its 64-bit pattern.
-- The field `capacity` of a hash map is written once, with the table's size, and never read.
pub mod Number
use ccoreconf_zcbor.Common.{ℕ, zero, suc, Bool, true, false, List, Option, none, some}
use ccoreconf_zcbor.Common.{[], ◌∷◌, ◌==◌, if◌then◌else◌}
use ccoreconf_zcbor.Common.Int.{ℤ}

mutual
  -- `CoreconfValueT`: a constructor for each `coreconf_type`
  pub data Value : Type 0 where
    array : Values → Value
    string : List ℕ → Value
    real : ℕ → Value
    int_8 : ℤ → Value
    int_16 : ℤ → Value
    int_32 : ℤ → Value
    int_64 : ℤ → Value
    uint_8 : ℕ → Value
    uint_16 : ℕ → Value
    uint_32 : ℕ → Value
    uint_64 : ℕ → Value
    true_value : Value
    false_value : Value
    null_value : Value
    hashmap : HashMap → Value

  -- the elements of a `CoreconfArrayT`, whose `size` is their number
  pub data Values : Type 0 where
    no_elements : Values
    element : Value → Values → Values

  -- a `CoreconfValueT*`
  pub data Ref : Type 0 where
    null_ref : Ref
    ref : Value → Ref

  -- a `CoreconfObjectT*` with the objects that `next` leads to
  pub data Chain : Type 0 where
    chain_end : Chain
    object : ℕ → Ref → Chain → Chain

  -- the pointers of `table`, in order
  pub data Table : Type 0 where
    no_buckets : Table
    bucket : Chain → Table → Table

  -- `CoreconfHashMapT`, with the field `size`
  pub data HashMap : Type 0 where
    map_of : Table → ℕ → HashMap

abbrev pub hashmap_table_size : ℕ
hashmap_table_size = 100

abbrev pub coreconf_max_depth : ℕ
coreconf_max_depth = 20

abbrev pub coreconf_max_loop : ℕ
coreconf_max_loop = 50

abbrev pub table : HashMap → Table
table (map_of t n) = t

abbrev pub size : HashMap → ℕ
size (map_of t n) = n

-- what a pointer leads to, if it is not NULL
abbrev pub deref : Ref → Option Value
deref null_ref = none
deref (ref v) = some v

-- `strdup` copies the bytes in front of the first NUL
unfoldable pub c_string : List ℕ → List ℕ
c_string [] = []
c_string (b ∷ bs) = if b == 0 then [] else b ∷ c_string bs

unfoldable pub create_coreconf_string : List ℕ → Value
unfolding c_string
create_coreconf_string s = string (c_string s)

unfoldable pub create_coreconf_boolean : Bool → Value
create_coreconf_boolean true = true_value
create_coreconf_boolean false = false_value

unfoldable pub empty_table : ℕ → Table
empty_table zero = no_buckets
empty_table (suc n) = bucket chain_end (empty_table n)

-- the map that `createCoreconfHashmap` allocates
unfoldable pub create_map : HashMap
unfolding empty_table
create_map = map_of (empty_table hashmap_table_size) 0

unfoldable pub create_coreconf_hashmap : Value
unfolding create_map
create_coreconf_hashmap = hashmap create_map

unfoldable pub create_coreconf_array : Value
create_coreconf_array = array no_elements
