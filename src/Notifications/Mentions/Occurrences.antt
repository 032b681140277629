-- ===== src/Notifications/Mentions/Occurrences.antt =====
-- Which names a text mentions, apart from the order of the search.
use Prim.Native.Char.{Char}
use Prim.Native.String
use schematica_api.Common.{
  String, Bool, true, false, ◌≡◌, ◌≢◌, ◌↔◌, inl, inr, refl, sym, ap, ◌∙◌, arith, List, [], ◌∷◌,
  ◌++◌, any, any-In_iff, In, ◌==◌, eq_iff, Bool-cases, String-cases, if◌then◌else◌,
}
use schematica_api.Notifications.{contains, add}
use schematica_api.Notifications.Mentions.{
  is_at, is_name_char, name_at_start, match_all, add_all, parse_mentions,
}
use text.Mathlib.TextLemmas.{nil-append, cons-append}

infixr 6 ◌⧺◌
abbrev ◌⧺◌ : String → String → String
s ⧺ t = Prim.Native.String.◌++◌ s t

pub IsName : String → Type 0
IsName Prim.Native.String.[] = Unit
IsName (Prim.Native.String.◌∷◌ c s) = (is_name_char c ≡ true) × IsName s

-- The text does not go on with a character of a name.
pub IsEnd : String → Type 0
IsEnd Prim.Native.String.[] = Unit
IsEnd (Prim.Native.String.◌∷◌ c s) = is_name_char c ≡ false

-- Somewhere in the text the name stands whole behind an `@`.
abbrev pub IsMentioned : String → String → Type 0
IsMentioned name content =
    (before after : String) × (at : Char) × (content
      ≡ before ⧺ Prim.Native.String.◌∷◌ at (name ⧺ after))
    × (is_at at ≡ true)
    × (name ≢ "")
    × IsName name
    × IsEnd after

name_at_start-IsName :
    (s : String)
    → (after : String) × (s ≡ name_at_start s ⧺ after) × IsName (name_at_start s) × IsEnd after
unfolding name_at_start IsName IsEnd
name_at_start-IsName Prim.Native.String.[] = ("", refl, tt, tt)
name_at_start-IsName (Prim.Native.String.◌∷◌ c s) = elim (Bool-cases (is_name_char c)) [
  | inl fits ↦
      let (after, e, named, end) = name_at_start-IsName s in
      rw fits (
        after,
        ap (λ t. Prim.Native.String.◌∷◌ c t) e ∙ sym (cons-append c (name_at_start s) after),
        (fits, named),
        end,
      )
  | inr other ↦
      rw other
        (Prim.Native.String.◌∷◌ c s, sym (nil-append (Prim.Native.String.◌∷◌ c s)), tt, other)
]

name_at_start-append :
    (name after : String) → IsName name → IsEnd after → name_at_start (name ⧺ after) ≡ name
unfolding name_at_start IsName IsEnd
name_at_start-append Prim.Native.String.[] after named end =
    rw (nil-append after) (none_at_start after end)
  where
    none_at_start : (t : String) → IsEnd t → name_at_start t ≡ ""
    none_at_start Prim.Native.String.[] h = refl
    none_at_start (Prim.Native.String.◌∷◌ c t) h = rw h refl
name_at_start-append (Prim.Native.String.◌∷◌ c s) after (fits, named) end =
    rw (cons-append c s after, name_at_start, fits, name_at_start-append s after named end) refl

IsMentioned-later :
    (name : String) (c : Char) (s : String)
    → IsMentioned name s
    → IsMentioned name (Prim.Native.String.◌∷◌ c s)
IsMentioned-later name c s (before, after, at_sign, e, here, ne, named, end) = (
  Prim.Native.String.◌∷◌ c before,
  after,
  at_sign,
  ap (λ t. Prim.Native.String.◌∷◌ c t) e ∙ sym (cons-append c before _),
  here,
  ne,
  named,
  end,
)

IsMentioned-here :
    (c : Char) (s : String)
    → is_at c ≡ true
    → name_at_start s ≢ ""
    → IsMentioned (name_at_start s) (Prim.Native.String.◌∷◌ c s)
IsMentioned-here c s here ne =
    let (after, e, named, end) = name_at_start-IsName s in
    (
      "",
      after,
      c,
      ap (λ t. Prim.Native.String.◌∷◌ c t) e ∙ sym (nil-append _),
      here,
      ne,
      named,
      end,
    )

-- Each match is a mention.
match_all-IsMentioned : (name s : String) → In name (match_all s) → IsMentioned name s
unfolding match_all
match_all-IsMentioned name Prim.Native.String.[] i = elim i [ ]
match_all-IsMentioned name (Prim.Native.String.◌∷◌ c s) i = elim (Bool-cases (is_at c)) [
  | inr other ↦ IsMentioned-later name c s (match_all-IsMentioned name s (rw other at i))
  | inl here ↦ elim (String-cases (name_at_start s) "") [
    | inl (none, e) ↦ IsMentioned-later name c s (match_all-IsMentioned name s (rw (here, e) at i))
    | inr (ne, e) ↦ elim (rw (here, e) at i) [
      | inl same ↦ rw same (IsMentioned-here c s here ne)
      | inr after ↦ IsMentioned-later name c s (match_all-IsMentioned name s after)
    ]
  ]
]

-- What the rest of the text mentions, the whole text mentions.
In-match_all_later :
    (name : String) (c : Char) (s : String)
    → In name (match_all s)
    → In name (match_all (Prim.Native.String.◌∷◌ c s))
unfolding match_all
In-match_all_later name c s i = elim (Bool-cases (is_at c)) [
  | inr other ↦ rw other i
  | inl here ↦ elim (Bool-cases (name_at_start s == "")) [
    | inl none ↦ rw (here, none) i
    | inr some ↦ rw (here, some) (inr i)
  ]
]

In-match_all_append :
    (name before s : String) → In name (match_all s) → In name (match_all (before ⧺ s))
In-match_all_append name Prim.Native.String.[] s i = rw (nil-append s) i
In-match_all_append name (Prim.Native.String.◌∷◌ c before) s i =
    rw (cons-append c before s)
      (In-match_all_later name c (before ⧺ s) (In-match_all_append name before s i))

In-match_all_here :
    (name after : String) (at_sign : Char)
    → is_at at_sign ≡ true
    → name ≢ ""
    → IsName name
    → IsEnd after
    → In name (match_all (Prim.Native.String.◌∷◌ at_sign (name ⧺ after)))
unfolding match_all
In-match_all_here name after at_sign here ne named end = elim (String-cases name "") [
  | inl (same, e) ↦ absurd (ne same)
  | inr (other, e) ↦ rw (match_all, here, name_at_start-append name after named end, e) (inl refl)
]

-- The set keeps the matches.
any-append :
    {A : Type 0} (p : A → Bool) (xs ys : List A)
    → any p (xs ++ ys) ≡ (if any p xs then true else any p ys)
any-append p [] ys = refl
any-append p (x ∷ xs) ys = ground (arith, any-append p xs ys)

contains-In : (name : String) (names : List String) → (contains name names ≡ true) ↔ In name names
contains-In name names =
    let (sound, complete) =
      any-In_iff (λ i. i == name) (λ i. name ≡ i)
        (λ i. (λ e. sym ((eq_iff i name).0 e), λ e. (eq_iff i name).1 (sym e))) names in
    (λ h. let (n, there, same) = sound h in rw same there, λ there. complete (name, there, refl))

contains-add :
    (name n : String) (mentions : List String)
    → contains name (add n mentions) ≡ (if n == name then true else contains name mentions)
contains-add name n mentions = elim (Bool-cases (contains n mentions)) [
  | inl old ↦ elim (String-cases n name) [
    | inl (same, e) ↦ rw (old, e) (rw same at old)
    | inr (other, e) ↦ rw (old, e) refl
  ]
  | inr new ↦ rw new (ground (arith, any-append (λ i. i == name) mentions (n ∷ [])))
]

contains-add_all :
    (name : String) (names mentions : List String)
    → contains name (add_all names mentions)
      ≡ (if contains name mentions then true else contains name names)
unfolding add_all
contains-add_all name [] mentions = ground arith
contains-add_all name (n ∷ names) mentions =
    ground (arith, contains-add_all name names (add n mentions), contains-add name n mentions)

-- The set of the mentions has a name exactly if the name stands whole behind an `@` somewhere in the
-- text, that is, it is not empty, consists of the characters of names, and no such character
-- follows.
pub parse_mentions_iff :
    (name content : String) → In name (parse_mentions content) ↔ IsMentioned name content
unfolding parse_mentions
parse_mentions_iff name content =
    let set = contains-add_all name (match_all content) [] in
    (
      λ i. match_all-IsMentioned name content (
          (contains-In name (match_all content)).0
            (sym set ∙ (contains-In name (parse_mentions content)).1 i)),
      λ mentioned.
          (contains-In name (parse_mentions content)).0
            (set ∙ (contains-In name (match_all content)).1 (In-IsMentioned mentioned)),
    )
  where
    In-IsMentioned : IsMentioned name content → In name (match_all content)
    In-IsMentioned (before, after, at_sign, e, here, ne, named, end) =
        rw e (
          In-match_all_append name before _
            (In-match_all_here name after at_sign here ne named end))
