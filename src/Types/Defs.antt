-- ===== src/Types/Defs.antt =====
-- include/lacc/type.h, and the head of src/parser/typetree.c: the value `Type` (here `CType`), the
-- predicates on it, `struct member`, `struct typetree` and the arena `types`.
-- A flag of one bit is a Bool. A symbol is the number that identifies it.
use lacc.Base.{
  ℕ, zero, suc, Bool, true, false, not, ◌&&◌, ◌||◌, Option, none, List, [], ◌∷◌, leb, ◌==◌,
  if◌then◌else◌, get_elem?, Text, Run, err, ok, undefined, assertion, demand, ◌>>=◌, ◌>>◌, guard,
  length, ◌++◌, set,
}

-- `placeholder` is the value -1.
pub data TypeKind : Type 0 where
  void bool char short int long float double ldouble : TypeKind
  pointer function array struct union placeholder : TypeKind

-- The value of the enumerator; 255 for the placeholder is above every range that is tested.
abbrev pub code : TypeKind → ℕ
code void = 0
code bool = 1
code char = 2
code short = 3
code int = 4
code long = 5
code float = 6
code double = 7
code ldouble = 8
code pointer = 9
code function = 10
code array = 11
code struct = 12
code union = 13
code placeholder = 255

pub record CType : Type 0 where
  pub kind : TypeKind
  pub unsigned : Bool
  pub const : Bool
  pub volatile : Bool
  pub restrict : Bool
  pub is_pointer_to : Bool
  pub pointer_const : Bool
  pub pointer_volatile : Bool
  pub pointer_restrict : Bool
  pub ref : ℕ

-- `Type type = {k}`, `{k, u}`
abbrev pub basic : TypeKind → Bool → CType
basic k u = record {
  kind = k;
  unsigned = u;
  const = false;
  volatile = false;
  restrict = false;
  is_pointer_to = false;
  pointer_const = false;
  pointer_volatile = false;
  pointer_restrict = false;
  ref = 0;
}

abbrev pub type_of : CType → TypeKind
type_of t = if t.is_pointer_to then pointer else t.kind

abbrev pub has_kind : TypeKind → CType → Bool
has_kind k t = code (type_of t) == code k

abbrev pub is_function : CType → Bool
is_function t = has_kind function t

abbrev pub is_object : CType → Bool
is_object t = not (is_function t)

abbrev pub is_struct : CType → Bool
is_struct t = has_kind struct t

abbrev pub is_union : CType → Bool
is_union t = has_kind union t

abbrev pub is_struct_or_union : CType → Bool
is_struct_or_union t = is_struct t || is_union t

abbrev pub is_bool : CType → Bool
is_bool t = has_kind bool t

abbrev pub is_array : CType → Bool
is_array t = has_kind array t

abbrev pub is_void : CType → Bool
is_void t = has_kind void t

abbrev pub is_pointer : CType → Bool
is_pointer t = has_kind pointer t

-- `lo <= type_of(t) && type_of(t) <= hi`
abbrev between : TypeKind → TypeKind → CType → Bool
between lo hi t = leb (code lo) (code (type_of t)) && leb (code (type_of t)) (code hi)

abbrev pub is_integer : CType → Bool
is_integer t = between bool long t

abbrev pub is_arithmetic : CType → Bool
is_arithmetic t = between bool ldouble t

abbrev pub is_unsigned : CType → Bool
is_unsigned t = not t.is_pointer_to && t.unsigned || is_bool t

abbrev pub is_const : CType → Bool
is_const t = if t.is_pointer_to then t.pointer_const else t.const

abbrev pub is_volatile : CType → Bool
is_volatile t = if t.is_pointer_to then t.pointer_volatile else t.volatile

abbrev pub is_restrict : CType → Bool
is_restrict t = if t.is_pointer_to then t.pointer_restrict else t.restrict

-- Widths and offsets of fields are C shorts that the code keeps between 0 and 64.
pub record Member : Type 0 where
  pub name : Text
  pub type : CType
  pub offset : ℕ
  pub field_width : ℕ
  pub field_offset : ℕ
  pub field_backing : ℕ
  pub sym : Option ℕ

pub record Typetree : Type 0 where
  pub kind : TypeKind
  pub unsigned : Bool
  pub const : Bool
  pub volatile : Bool
  pub restrict : Bool
  pub vararg : Bool
  pub flexible : Bool
  pub vla : Bool
  pub incomplete : Bool
  pub size : ℕ
  pub vlen : Option ℕ
  pub members : List Member
  pub next : CType
  pub tag : Option ℕ

-- `struct typetree t = {0}; t.type = tt;`
abbrev pub blank : TypeKind → Typetree
blank k = record {
  kind = k;
  unsigned = false;
  const = false;
  volatile = false;
  restrict = false;
  vararg = false;
  flexible = false;
  vla = false;
  incomplete = false;
  size = 0;
  vlen = none;
  members = [];
  next = basic void false;
  tag = none;
}

-- The global list `types`. It only grows.
abbrev pub Types : Type 0
Types = List Typetree

unfoldable pub get_typetree_handle : Types → ℕ → Run Typetree
get_typetree_handle ts zero = err assertion
get_typetree_handle ts (suc i) = demand (get_elem? ts i) assertion

-- A write through the handle.
unfoldable pub put_typetree : Types → ℕ → Typetree → Types
put_typetree ts zero t = ts
put_typetree ts (suc i) t = set ts i t

abbrev handle_case : TypeKind → Typetree → ℕ → Run CType
handle_case pointer t r =
    if t.next.is_pointer_to
    then err assertion
    else ok (record {
      kind = t.next.kind;
      unsigned = t.next.unsigned;
      const = t.next.const;
      volatile = t.next.volatile;
      restrict = t.next.restrict;
      is_pointer_to = true;
      pointer_const = t.const;
      pointer_volatile = t.volatile;
      pointer_restrict = t.restrict;
      ref = t.next.ref;
    })
handle_case k t r =
    let composite = leb (code function) (code k) && leb (code k) (code union) in
    let plain = basic t.kind t.unsigned in
    ok (record plain {
      const = t.const;
      volatile = t.volatile;
      restrict = t.restrict;
      ref = if composite then r else 0;
    })

-- The type that a number of the list stands for.
unfoldable pub get_type_handle : Types → ℕ → Run CType
unfolding get_typetree_handle
get_type_handle ts r = do t ← get_typetree_handle ts r; handle_case t.kind t r

-- `ref` is a signed field of 16 bits, which holds no number above 32767.
unfoldable pub type_create : TypeKind → Types → Run (CType × Types)
type_create k ts = do
  guard (leb (suc (length ts)) 32767) undefined
  let plain = basic k false
  ok (record plain { ref = suc (length ts) }, ts ++ blank k ∷ [])

unfoldable pub is_type_placeholder : CType → Bool
is_type_placeholder t = code t.kind == code placeholder

unfoldable pub remove_qualifiers : CType → CType
remove_qualifiers t =
    if t.is_pointer_to
    then record t { pointer_const = false; pointer_volatile = false; pointer_restrict = false }
    else record t { const = false; volatile = false; restrict = false }
