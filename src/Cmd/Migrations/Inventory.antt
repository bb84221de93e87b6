-- ===== src/Cmd/Migrations/Inventory.antt =====
-- The inventory of the migration files against a description of it.
use Prim.Native.Char.{Char}
use Prim.Native.String
use Prim.Native.String.append.{nil, cons}
use text.Mathlib.TextPositions.{eq_refl}
use service_json_keys.Prelude.{
  ℕ, ◌+◌, ◌≡◌, ◌≢◌, ◌↔◌, subst, refl, sym, ap, ◌∙◌, inl, inr, String, true, false, List, [], ◌∷◌,
  arith, str_eq, eq_iff, Bool-cases, suc,
}
use service_json_keys.Fault.{Error}
use service_json_keys.Cmd.Migrations.{
  Visit, failed, visited, has_suffix, trim_suffix, up, list_up_migrations,
}

-- Which names belong to a walk: until its first error, the stem of every file whose path is a stem
-- and the suffix, in the order of the walk, and nothing for a directory or for another file.
pub data Inventory : List Visit → List String → Type 0 where
  ended : Inventory [] []
  aborted : (e : Error) (rest : List Visit) → Inventory (failed e ∷ rest) []
  directory :
      (path : String) (rest : List Visit) (names : List String)
      → Inventory rest names
      → Inventory (visited path true ∷ rest) names
  another :
      (path : String) (rest : List Visit) (names : List String)
      → ((stem : String) → path ≢ String.◌++◌ stem up)
      → Inventory rest names
      → Inventory (visited path false ∷ rest) names
  migration :
      (path stem : String) (rest : List Visit) (names : List String)
      → path ≡ String.◌++◌ stem up
      → Inventory rest names
      → Inventory (visited path false ∷ rest) (stem ∷ names)

nil-append : (t : String) → String.◌++◌ "" t ≡ t
nil-append t = λ i. nil t i

cons-append :
    (c : Char) (s t : String) → String.◌++◌ (String.◌∷◌ c s) t ≡ String.◌∷◌ c (String.◌++◌ s t)
cons-append c s t = λ i. cons c s t i

chars : String → ℕ
chars String.[] = 0
chars (String.◌∷◌ c s) = suc (chars s)

chars-append : (s t : String) → chars (String.◌++◌ s t) ≡ chars s + chars t
unfolding chars
chars-append String.[] t = rw (nil-append t) (omega arith)
chars-append (String.◌∷◌ c s) t = rw (cons-append c s t) (omega (arith, chars-append s t))

-- A text with something in front is another text than its end.
end-ne :
    (c : Char) (s suffix : String) → str_eq (String.◌∷◌ c (String.◌++◌ s suffix)) suffix ≡ false
unfolding chars
end-ne c s suffix = elim (Bool-cases (str_eq (String.◌∷◌ c (String.◌++◌ s suffix)) suffix)) [
  | inr e ↦ e
  | inl e ↦
      let same = (eq_iff (String.◌∷◌ c (String.◌++◌ s suffix)) suffix).0 e in
      absurd (omega (arith, ap chars same, chars-append s suffix))
]

trim-append :
    (s suffix : String) → has_suffix s suffix ≡ true → String.◌++◌ (trim_suffix s suffix) suffix ≡ s
unfolding has_suffix trim_suffix
trim-append String.[] suffix h = nil-append suffix ∙ sym ((eq_iff "" suffix).0 h)
trim-append (String.◌∷◌ c s) suffix h = elim (Bool-cases (str_eq (String.◌∷◌ c s) suffix)) [
  | inl e ↦ rw e (nil-append suffix ∙ sym ((eq_iff (String.◌∷◌ c s) suffix).0 e))
  | inr e ↦ rw e (
      cons-append c (trim_suffix s suffix) suffix
      ∙ ap (λ t. String.◌∷◌ c t) (trim-append s suffix (rw e at h)))
]

self_suffix :
    (suffix : String) → (has_suffix suffix suffix ≡ true) × (trim_suffix suffix suffix ≡ "")
unfolding has_suffix trim_suffix
self_suffix String.[] = (eq_refl "", refl)
self_suffix (String.◌∷◌ c s) = let same = eq_refl (String.◌∷◌ c s) in (rw same, rw same)

append-trim :
    (stem suffix : String)
    → (has_suffix (String.◌++◌ stem suffix) suffix ≡ true)
      × (trim_suffix (String.◌++◌ stem suffix) suffix ≡ stem)
unfolding has_suffix trim_suffix
append-trim String.[] suffix = rw (nil-append suffix) (self_suffix suffix)
append-trim (String.◌∷◌ c s) suffix =
    let (found, rest) = append-trim s suffix in
    rw (cons-append c s suffix, end-ne c s suffix, found, rest) (refl, refl)

no_stem :
    (path : String) → has_suffix path up ≡ false → (stem : String) → path ≢ String.◌++◌ stem up
no_stem path h stem same = cc (h, (append-trim stem up).0, same)

names-Inventory : (visits : List Visit) → Inventory visits (list_up_migrations visits)
unfolding list_up_migrations
names-Inventory [] = ended
names-Inventory (failed e ∷ rest) = aborted e rest
names-Inventory (visited path true ∷ rest) = directory path rest _ (names-Inventory rest)
names-Inventory (visited path false ∷ rest) = elim (Bool-cases (has_suffix path up)) [
  | inl e ↦ rw e (
      migration path (trim_suffix path up) rest (list_up_migrations rest)
        (sym (trim-append path up e)) (names-Inventory rest))
  | inr e ↦
      rw e (another path rest (list_up_migrations rest) (no_stem path e) (names-Inventory rest))
]

Inventory-unique :
    {visits : List Visit} {names : List String}
    → Inventory visits names
    → list_up_migrations visits ≡ names
unfolding list_up_migrations
Inventory-unique ended = refl
Inventory-unique (aborted e rest) = refl
Inventory-unique (directory path rest names more) = Inventory-unique more
Inventory-unique (another path rest names none_is more) = elim (Bool-cases (has_suffix path up)) [
  | inl e ↦ absurd (none_is (trim_suffix path up) (sym (trim-append path up e)))
  | inr e ↦ rw e (Inventory-unique more)
]
Inventory-unique (migration path stem rest names is more) =
    let (found, trimmed) = append-trim stem up in
    rw (is, found, trimmed) (ap (λ ns. stem ∷ ns) (Inventory-unique more))

-- The inventory lists, up to the first error of the walk and in its order, the stems of exactly the
-- files whose path is a stem followed by `.up.sql`, and no directory: it is the one list of names
-- that the description of a walk admits.
pub list_up_migrations_lem :
    (visits : List Visit) (names : List String)
    → Inventory visits names ↔ (list_up_migrations visits ≡ names)
list_up_migrations_lem visits names =
    (Inventory-unique, λ same. subst (Inventory visits) same (names-Inventory visits))
