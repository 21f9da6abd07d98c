-- ===== src/Extern/Sample.antt =====
-- Values of the interfaces of Extern, for tests: JSON documents as trees, found by their text in a
-- table, and a base64 that has the lengths of the real one.
use newt_esp.Base.{
  ℕ, ◌+◌, ◌*◌, ◌/◌, ◌<◌, ◌≤◌, ◌≡◌, refl, Bool, true, false, zero, suc, List, [], ◌∷◌, Option, none,
  some, arith, ltb, leb, le→leb, ◌==◌, ◌&&◌, if◌then◌else◌, length, get_elem?, Bytes, codes,
  bytes_eq, pos, ap,
}
use newt_esp.Extern.{Cjson, Base64, JsonNumber, Nvs}

mutual
  pub data Json : Type 0 where
    str : Bytes → Json
    num : ℕ → Json
    obj : Members → Json
    arr : Items → Json

  pub data Members : Type 0 where
    end : Members
    member : Bytes → Json → Members → Members

  pub data Items : Type 0 where
    nil : Items
    cons : Json → Items → Items

abbrev pub find_member : Bytes → Members → Option Json
find_member k end = none
find_member k (member j v m) = if bytes_eq j k then some v else find_member k m

abbrev pub items : Items → List Json
items nil = []
items (cons j js) = j ∷ items js

abbrev pub get_item : Json → Bytes → Option Json
get_item (obj m) k = find_member k m
get_item _ k = none

abbrev pub string_of : Json → Option Bytes
string_of (str s) = some s
string_of _ = none

abbrev pub number_of : Json → Option JsonNumber
number_of (num n) = some (record { valueint = pos n; valuedouble_u64 = n })
number_of _ = none

abbrev pub array_of : Json → Option (List Json)
array_of (arr js) = some (items js)
array_of _ = none

abbrev pub is_object : Json → Bool
is_object (obj _) = true
is_object _ = false

abbrev pub find_text : List (Bytes × Json) → Bytes → Option Json
find_text [] s = none
find_text ((t, j) ∷ r) s = if bytes_eq t s then some j else find_text r s

abbrev pub sample_json : List (Bytes × Json) → Cjson
sample_json table = record {
  Item = Json;
  parse = find_text table;
  get_item = get_item;
  string_of = string_of;
  number_of = number_of;
  array_of = array_of;
  is_object = is_object;
  print_unformatted = λ j. some (codes "{}");
  print_strings = λ fields. some (codes "{}");
}

unfoldable pub fill_bytes : ℕ → ℕ → Bytes
fill_bytes zero b = []
fill_bytes (suc n) b = b ∷ fill_bytes n b

length-fill_bytes : (n b : ℕ) → length (fill_bytes n b) ≡ n
unfolding fill_bytes
length-fill_bytes zero b = refl
length-fill_bytes (suc n) b = ap suc (length-fill_bytes n b)

pub get_elem?-fill_bytes : (n c i b : ℕ) → get_elem? (fill_bytes n c) i ≡ some b → b ≡ c
unfolding fill_bytes
get_elem?-fill_bytes zero c i b h = cc
get_elem?-fill_bytes (suc n) c zero b h = cc
get_elem?-fill_bytes (suc n) c (suc i) b h = get_elem?-fill_bytes n c i b h

unfoldable pub encode : ℕ → Bytes → Option Bytes
encode cap raw =
    let n = 4 * ((length raw + 2) / 3) in if ltb n cap then some (fill_bytes n b'A') else none

unfoldable pub decode : ℕ → Bytes → Option Bytes
decode cap text = if length text == 44 && leb 32 cap then some (fill_bytes 32 7) else none

pub length-encode :
    (cap : ℕ) (raw out : Bytes)
    → encode cap raw ≡ some out
    → length out ≡ 4 * ((length raw + 2) / 3)
unfolding encode
length-encode cap raw out h = ground (arith, length-fill_bytes (4 * ((length raw + 2) / 3)) b'A')

pub length-encode-lt : (cap : ℕ) (raw out : Bytes) → encode cap raw ≡ some out → length out < cap
unfolding encode
length-encode-lt cap raw out h = ground (arith, length-fill_bytes (4 * ((length raw + 2) / 3)) b'A')

pub encode-fits :
    (cap : ℕ) (raw : Bytes)
    → 4 * ((length raw + 2) / 3) < cap
    → (out : Bytes) × (encode cap raw ≡ some out)
unfolding encode
encode-fits cap raw h = (fill_bytes (4 * ((length raw + 2) / 3)) b'A', ground arith)

pub length-decode-le : (cap : ℕ) (text out : Bytes) → decode cap text ≡ some out → length out ≤ cap
unfolding decode
length-decode-le cap text out h = ground (arith, length-fill_bytes 32 7)

unfoldable pub sample_base64 : Base64
unfolding encode decode fill_bytes
sample_base64 = record {
  encode = encode;
  decode = decode;
  length-encode = length-encode;
  length-encode-lt = length-encode-lt;
  encode-fits = encode-fits;
  length-decode-le = length-decode-le;
}

-- A storage with room for one blob, which the key of the sources names.
unfoldable pub get_blob : Option Bytes → Bytes → ℕ → Option Bytes
get_blob none key cap = none
get_blob (some blob) key cap = if leb (length blob) cap then some blob else none

pub get_blob-commit :
    (s t u : Option Bytes) (key blob : Bytes) (cap : ℕ)
    → ◌≡◌ {A = Option (Option Bytes)} (some (some blob)) (some t)
    → ◌≡◌ {A = Option (Option Bytes)} (some t) (some u)
    → length blob ≤ cap
    → get_blob u key cap ≡ some blob
unfolding get_blob
get_blob-commit s t u key blob cap set commit h =
    let e : u ≡ some blob = cc in rw e (rw (le→leb (length blob) cap h))

abbrev pub sample_nvs : Nvs
sample_nvs = record {
  Store = Option Bytes;
  get_blob = get_blob;
  set_blob = λ s key blob. some (some blob);
  commit = λ s. some s;
  get_blob-commit = get_blob-commit;
}
