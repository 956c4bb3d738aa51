-- ===== src/Canonical/Text.antt =====
-- `json.dumps` as canonical.py calls it: sorted keys, the separators `,` and `:`, no ASCII escapes.
-- A text is written as its code points.
use Prim.Native.Char.{code}
use Prim.Native.String.{compare}
use text.Mathlib.Text.{is_le}
use open_authority_trials_oa.Prelude.{
  ℕ, zero, suc, ◌+◌, ◌/◌, ◌%◌, String, ◌≡◌, refl, true, false, List, [], ◌∷◌, ◌++◌, eqb, ltb,
  if◌then◌else◌,
}
use open_authority_trials_oa.Prelude.Int.{ℤ, pos, negsuc}
use open_authority_trials_oa.Canonical.Json.{
  Json, null, bool, num, str, arr, obj, Items, nil, cons, Fields, end, field, list, dict,
}

abbrev pub codes : String → List ℕ
codes String.[] = []
codes (String.◌∷◌ c s) = code c ∷ codes s

-- 0 to 9, a to f
abbrev hex_digit : ℕ → ℕ
hex_digit d = if ltb d 10 then 48 + d else 87 + d

-- ESCAPE_DCT of the JSON encoder: `"`, `\`, and the code points below 32
unfoldable pub escape : ℕ → List ℕ
escape c =
    if eqb c 34
    then 92 ∷ 34 ∷ []
    else if eqb c 92
    then 92 ∷ 92 ∷ []
    else if eqb c 10
    then 92 ∷ 110 ∷ []
    else if eqb c 13
    then 92 ∷ 114 ∷ []
    else if eqb c 9
    then 92 ∷ 116 ∷ []
    else if eqb c 12
    then 92 ∷ 102 ∷ []
    else if eqb c 8
    then 92 ∷ 98 ∷ []
    else if ltb c 32
    then 92 ∷ 117 ∷ 48 ∷ 48 ∷ hex_digit (c / 16) ∷ hex_digit (c % 16) ∷ []
    else c ∷ []

unfoldable pub escape_all : List ℕ → List ℕ
unfolding escape
escape_all [] = []
escape_all (c ∷ cs) = escape c ++ escape_all cs

unfoldable pub quote : String → List ℕ
unfolding escape_all
quote s = 34 ∷ (escape_all (codes s) ++ 34 ∷ [])

-- The decimal digits of `n` before `acc`; more fuel than `n` is enough.
unfoldable pub digits_from : ℕ → ℕ → List ℕ → List ℕ
digits_from zero n acc = acc
digits_from (suc fuel) n acc =
    let rest = digits_from fuel (n / 10) ((48 + n % 10) ∷ acc) in
    if ltb n 10 then (48 + n) ∷ acc else rest

unfoldable pub decimal : ℤ → List ℕ
unfolding digits_from
decimal (pos n) = digits_from (suc n) n []
decimal (negsuc n) = 45 ∷ digits_from (suc (suc n)) (suc n) []

-- a field before the first one whose key is not smaller: `sorted` is stable
unfoldable pub insert_field : String → Json → Fields → Fields
insert_field k v end = field k v end
insert_field k v (field j w fs) =
    if is_le (compare k j) then field k v (field j w fs) else field j w (insert_field k v fs)

-- sort_keys=True, at every depth
unfoldable mutual
  unfolding insert_field

  pub sort_keys : Json → Json
  sort_keys null = null
  sort_keys (bool b) = bool b
  sort_keys (num n) = num n
  sort_keys (str s) = str s
  sort_keys (arr xs) = arr (sort_items xs)
  sort_keys (obj fs) = obj (sort_fields fs)

  pub sort_items : Items → Items
  sort_items nil = nil
  sort_items (cons x xs) = cons (sort_keys x) (sort_items xs)

  pub sort_fields : Fields → Fields
  sort_fields end = end
  sort_fields (field k v fs) = insert_field k (sort_keys v) (sort_fields fs)

unfoldable mutual
  unfolding quote decimal

  pub print : Json → List ℕ
  print null = codes "null"
  print (bool true) = codes "true"
  print (bool false) = codes "false"
  print (num n) = decimal n
  print (str s) = quote s
  print (arr xs) = 91 ∷ (print_items xs ++ 93 ∷ [])
  print (obj fs) = 123 ∷ (print_fields fs ++ 125 ∷ [])

  pub print_items : Items → List ℕ
  print_items nil = []
  print_items (cons x xs) = print x ++ print_more xs

  pub print_more : Items → List ℕ
  print_more nil = []
  print_more (cons x xs) = 44 ∷ (print x ++ print_more xs)

  pub print_fields : Fields → List ℕ
  print_fields end = []
  print_fields (field k v fs) = quote k ++ 58 ∷ (print v ++ print_others fs)

  pub print_others : Fields → List ℕ
  print_others end = []
  print_others (field k v fs) = 44 ∷ (quote k ++ 58 ∷ (print v ++ print_others fs))

-- json.dumps(value, sort_keys=True, separators=(",", ":"), ensure_ascii=False)
unfoldable pub dumps : Json → List ℕ
unfolding print sort_keys
dumps j = print (sort_keys j)

dumps_example :
    dumps (
      dict (
        ("b", list (num (pos 120) ∷ num (negsuc 4) ∷ null ∷ []))
        ∷ ("a", str "x\"y")
        ∷ ("ab", dict [])
        ∷ []))
    ≡ codes "{\"a\":\"x\\\"y\",\"ab\":{},\"b\":[120,-5,null]}"
unfolding dumps
dumps_example = refl
