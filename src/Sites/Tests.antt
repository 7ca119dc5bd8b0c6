-- ===== src/Sites/Tests.antt =====
-- An object 2 at the field 8 of an object 1, with an object 3 at its own start; the objects 1 and 3 are
-- freed.
use study_uafx.Base.{
  ℕ, ◌≡◌, refl, true, false, none, some, List, [], ◌∷◌, if◌then◌else◌, ◌==◌, ltb, contains, ◌↔◌,
  arith, ==_iff, Option, ap, sym, zero, suc,
}
use study_uafx.Base.Int.{pos}
use study_uafx.Loc.{InstLoc, loc}
use study_uafx.Sites.{
  Object, Objs, get_emb_objs, emb_in, emb_at, get_field_free_sites, get_field_alloc_site,
}
use study_uafx.Sites.Exact.{IsNested, FreesField, get_field_free_sites-FreesField}
use study_uafx.Sites.Alloc.{AllocatesField, get_field_alloc_site-AllocatesField}
use study_uafx.Thread.Chain.{has_loc}

abbrev at : ℕ → InstLoc
at i = loc i (some 0 ∷ [])

abbrev plain : Object
plain = record {
  parent = none;
  emb_objs = [];
  is_seq = false;
  fields = [];
  free_sites = [];
  alloc_loc = none;
}

abbrev three : Objs
three zero = plain
three (suc zero) = record plain { emb_objs = (pos 8, some 2) ∷ []; free_sites = (at 5, []) ∷ [] }
three (suc (suc zero)) = record plain { parent = some 1; emb_objs = (pos 0, some 3) ∷ [] }
three (suc (suc (suc zero))) = record plain { parent = some 2; free_sites = (at 6, []) ∷ [] }
three (suc (suc (suc (suc o)))) = plain

sites_of_field : get_field_free_sites three 9 1 (pos 8) ≡ some (at 5 ∷ at 6 ∷ [])
unfolding get_field_free_sites
sites_of_field = refl

abbrev height : ℕ → ℕ
height o = if o == 3 then 2 else if o == 2 then 1 else 0

abbrev depth : ℕ → ℕ
depth o = if o == 2 then 1 else 0

some_number : (a b : ℕ) → some a ≡ some b → a ≡ b
some_number a b h = cc

up_three : (o p : ℕ) → (three o).parent ≡ some p → ltb (height p) (height o) ≡ true
up_three zero p e = cc
up_three (suc zero) p e = cc
up_three (suc (suc zero)) p e = ap (λ (k : ℕ). ltb (height k) 1) (sym (some_number 1 p e))
up_three (suc (suc (suc zero))) p e = ap (λ (k : ℕ). ltb (height k) 2) (sym (some_number 2 p e))
up_three (suc (suc (suc (suc o)))) p e = cc

down_three :
    (o e : ℕ) → contains (get_emb_objs (three o) (pos 0)) e ≡ true → ltb (depth e) (depth o) ≡ true
unfolding get_emb_objs emb_in emb_at contains
down_three zero e m = cc
down_three (suc zero) e m = cc
down_three (suc (suc zero)) e m =
    ap (λ (k : ℕ). ltb (depth k) 1) (sym ((==_iff 3 e).0 (ground (arith, m))))
down_three (suc (suc (suc zero))) e m = cc
down_three (suc (suc (suc (suc o)))) e m = cc

abbrev three-IsNested : IsNested three
three-IsNested = record { up = height; down = depth; up_falls = up_three; down_falls = down_three }

low_three : (e : ℕ) → contains (get_emb_objs (three 1) (pos 8)) e ≡ true → ltb (depth e) 9 ≡ true
unfolding get_emb_objs emb_in emb_at contains
low_three e m = ap (λ (k : ℕ). ltb (depth k) 9) (sym ((==_iff 2 e).0 (ground (arith, m))))

get_field_free_sites-FreesField_example :
    (sites : List InstLoc) × (get_field_free_sites three 9 1 (pos 8) ≡ some sites)
    × ((f : InstLoc) → (has_loc f sites ≡ true) ↔ FreesField three 1 (pos 8) f)
get_field_free_sites-FreesField_example =
    get_field_free_sites-FreesField three three-IsNested 9 1 (pos 8) refl low_three

-- The same objects, where the object 2 and the object 1 that hosts it are allocated.
abbrev owned : Objs
owned o = record (three o) {
  alloc_loc = if o == 2 then some (at 2) else if o == 1 then some (at 1) else none;
}

nearest_of_field : get_field_alloc_site owned 9 3 (pos 0) ≡ some (some (at 2))
unfolding get_field_alloc_site
nearest_of_field = refl

down_owned :
    (o e : ℕ) → contains (get_emb_objs (owned o) (pos 0)) e ≡ true → ltb (depth e) (depth o) ≡ true
unfolding get_emb_objs emb_in emb_at contains
down_owned o e m = down_three o e m

abbrev owned-IsNested : IsNested owned
owned-IsNested = record { up = height; down = depth; up_falls = up_three; down_falls = down_owned }

low_owned : (e : ℕ) → contains (get_emb_objs (owned 3) (pos 0)) e ≡ true → ltb (depth e) 9 ≡ true
unfolding get_emb_objs emb_in emb_at contains
low_owned e m = cc

get_field_alloc_site-AllocatesField_example :
    (site : Option InstLoc) × (get_field_alloc_site owned 9 3 (pos 0) ≡ some site)
    × AllocatesField owned 3 (pos 0) site
get_field_alloc_site-AllocatesField_example =
    get_field_alloc_site-AllocatesField owned owned-IsNested 9 3 (pos 0) refl low_owned
