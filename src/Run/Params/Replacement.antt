-- ===== src/Run/Params/Replacement.antt =====
-- What the replacement of placeholders makes of a text that is given by its parts.
use Prim.Native.Char.{Char, code}
use Prim.Native.String.{◌++◌ as text_append}
use Prim.Native.String.append
use text.Mathlib.TextLemmas.{
  append_assoc as text_assoc, append-nil, append-ne-nil_of_right_ne-nil, nil≢cons,
}
use text.Mathlib.TextEquality.{codes_equal}
use software_distribution_pl.Common.{
  String, Bool, true, false, ◌&&◌, not, List, [], ◌∷◌, ◌≡◌, refl, arith, ◌=ˢ◌, eq_iff, ◌≢◌, sym,
  All, &&_split, inl, inr, ==_iff, Bool-cases, ||_neither,
}
use software_distribution_pl.Run.Spec.{Param}
use software_distribution_pl.Run.Params.{
  replace_all, replaced, opened, nothing, key, is_dollar, is_letter, is_key_char, letter,
  follows_dollar, substitute_params, dollar, param_value, extends, is_open,
}

-- A stretch of text, or a placeholder by its key.
pub data Part : Type 0 where
  plain hole : String → Part

abbrev pub lacks_dollar : String → Bool
lacks_dollar String.[] = true
lacks_dollar (String.◌∷◌ c s) = not (is_dollar c) && lacks_dollar s

abbrev pub is_tail : String → Bool
is_tail String.[] = true
is_tail (String.◌∷◌ c s) = is_key_char c && is_tail s

abbrev pub is_key : String → Bool
is_key String.[] = false
is_key (String.◌∷◌ c s) = is_letter c && is_tail s

-- Plain text without a dollar, and keys that are identifiers.
abbrev pub IsPart : Part → Type 0
IsPart (plain s) = lacks_dollar s ≡ true
IsPart (hole k) = is_key k ≡ true

abbrev pub render : List Part → String
render [] = ""
render (plain s ∷ ps) = text_append s (render ps)
render (hole k ∷ ps) = text_append (opened k) (text_append "}" (render ps))

abbrev pub expand : List Param → List Part → String
expand params [] = ""
expand params (plain s ∷ ps) = text_append s (expand params ps)
expand params (hole k ∷ ps) = text_append (replaced params k) (expand params ps)

replace_all-plain :
    (params : List Param) (t s : String)
    → lacks_dollar t ≡ true
    → replace_all params nothing (text_append t s) ≡ text_append t (replace_all params nothing s)
unfolding replace_all
replace_all-plain params String.[] s h =
    rw (append.nil s, append.nil (replace_all params nothing s)) refl
replace_all-plain params (String.◌∷◌ c t) s h =
    rw (append.cons c t s, append.cons c t (replace_all params nothing s)) ground
      (arith, replace_all-plain params t s)

letter-text_append : (c : Char) (s : String) → text_append (letter c) s ≡ String.◌∷◌ c s
letter-text_append c s = rw (append.cons c String.[] s, append.nil s) refl

shift :
    (k : String) (c : Char) (t : String)
    → text_append (text_append k (letter c)) t ≡ text_append k (String.◌∷◌ c t)
shift k c t = rw (text_assoc k (letter c) t, letter-text_append c t) refl

is_nonempty-letter : (c : Char) → (letter c =ˢ "") ≡ false
is_nonempty-letter c =
    let ne : letter c ≢ "" = λ q. nil≢cons (sym q) in ground (arith, ne, eq_iff (letter c) "")

is_nonempty-extended :
    (k : String) (c : Char) → (k =ˢ "") ≡ false → (text_append k (letter c) =ˢ "") ≡ false
is_nonempty-extended k c e =
    let ne : text_append k (letter c) ≢ "" =
      append-ne-nil_of_right_ne-nil k (λ q. nil≢cons (sym q)) in
    ground (arith, ne, eq_iff (text_append k (letter c)) "")

replace_all-tail :
    (params : List Param) (k t s : String)
    → (k =ˢ "") ≡ false
    → is_tail t ≡ true
    → replace_all params (key k) (text_append t (text_append "}" s))
      ≡ text_append (replaced params (text_append k t)) (replace_all params nothing s)
unfolding replace_all
replace_all-tail params k String.[] s e h =
    rw (append.nil (text_append "}" s), letter-text_append "}" s, append-nil k) (rw e refl)
replace_all-tail params k (String.◌∷◌ c t) s e h = rw (append.cons c t (text_append "}" s)) ground (
  arith,
  replace_all-tail params (text_append k (letter c)) t s,
  is_nonempty-extended k c e,
  shift k c t,
)

opened-text_append :
    (k s : String) → text_append (opened k) s ≡ String.◌∷◌ "$" (String.◌∷◌ "{" (text_append k s))
opened-text_append k s =
    rw (text_assoc "${" k s, append.cons "$" "{" (text_append k s), letter-text_append "{") refl

replace_all-extend :
    (params : List Param) (k : String) (c : Char) (s : String)
    → extends k c ≡ true
    → replace_all params (key k) (String.◌∷◌ c s)
      ≡ replace_all params (key (text_append k (letter c))) s
unfolding replace_all
replace_all-extend params k c s h = rw h refl

replace_all-hole :
    (params : List Param) (k s : String)
    → is_key k ≡ true
    → replace_all params nothing (text_append (opened k) (text_append "}" s))
      ≡ text_append (replaced params k) (replace_all params nothing s)
unfolding replace_all
replace_all-hole params String.[] s h = absurd (cc)
replace_all-hole params (String.◌∷◌ c t) s h =
    let (first, rest) = &&_split (is_letter c) (is_tail t) h in
    rw
      (opened-text_append (String.◌∷◌ c t) (text_append "}" s), append.cons c t (text_append "}" s))
      cc
      (
        replace_all-extend params "" c (text_append t (text_append "}" s)) first,
        append.nil (letter c),
        replace_all-tail params (letter c) t s (is_nonempty-letter c) rest,
        letter-text_append c t,
      )

replace_all-render :
    (params : List Param) (parts : List Part)
    → All IsPart parts
    → replace_all params nothing (render parts) ≡ expand params parts
unfolding replace_all
replace_all-render params [] h = refl
replace_all-render params (plain s ∷ ps) h =
    cc (replace_all-plain params s (render ps) h.0, replace_all-render params ps h.1)
replace_all-render params (hole k ∷ ps) h =
    cc (replace_all-hole params k (render ps) h.0, replace_all-render params ps h.1)

expand-nil : (parts : List Part) → expand [] parts ≡ render parts
unfolding param_value
expand-nil [] = refl
expand-nil (plain s ∷ ps) = cc (expand-nil ps)
expand-nil (hole k ∷ ps) = cc (expand-nil ps, text_assoc (opened k) "}" (expand [] ps))

dollar-only : (c : Char) → is_dollar c ≡ true → c ≡ "$"
dollar-only c h = codes_equal c "$" (rw ((==_iff (code c) b'$').0 h) refl)

-- The two statements on the rest of a text.
abbrev Unmarked : List Param → String → Type 0
Unmarked params s =
    (follows_dollar false s ≡ false → replace_all params nothing s ≡ s)
    × (follows_dollar true s ≡ false → replace_all params dollar s ≡ String.◌∷◌ "$" s)

replace_all-start :
    (params : List Param) (c : Char) (s : String)
    → Unmarked params s
    → follows_dollar (is_dollar c) s ≡ false
    → replace_all params nothing (String.◌∷◌ c s) ≡ String.◌∷◌ c s
unfolding replace_all
replace_all-start params c s next h = elim (Bool-cases (is_dollar c)) [
  | inl e ↦ rw e (cc (dollar-only c e, next.1 (rw e at h)))
  | inr e ↦ rw e (cc (next.0 (rw e at h)))
]

replace_all-Unmarked : (params : List Param) (s : String) → Unmarked params s
unfolding replace_all
replace_all-Unmarked params String.[] = (λ h. refl, λ h. refl)
replace_all-Unmarked params (String.◌∷◌ c s) =
    let next = replace_all-Unmarked params s in
    (
      replace_all-start params c s next,
      λ h.
          let (shut, rest) = ||_neither (is_open c) (follows_dollar (is_dollar c) s) h in
          rw shut
            (cc (replace_all-start params c s next rest, letter-text_append "$" (String.◌∷◌ c s))),
    )

-- A text that is written from plain parts without a dollar and placeholders with identifiers as
-- keys becomes the same parts with each placeholder replaced by the value of its key, or kept when
-- no parameter has it.
pub substitute_params_expands :
    (params : List Param) (parts : List Part)
    → All IsPart parts
    → substitute_params params (render parts) ≡ expand params parts
unfolding substitute_params
substitute_params_expands [] parts h = sym (expand-nil parts)
substitute_params_expands (p ∷ ps) parts h =
    ground
      (arith, replace_all-render (p ∷ ps) parts h, (replace_all-Unmarked (p ∷ ps) (render parts)).0)
