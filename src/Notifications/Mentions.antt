-- ===== src/Notifications/Mentions.antt =====
-- notifications/notification.service.ts, parseMentions: the matches of the global regular expression
-- `@([a-zA-Z0-9._-]+)`, of common/constants/validation.constants.ts.
pub mod Occurrences
use Prim.Native.Char.{Char, code}
use Prim.Native.String
use schematica_api.Common.{
  String, Bool, ◌≡◌, refl, true, false, ◌||◌, ◌&&◌, Option, none, some, List, [], ◌∷◌, ◌==◌, leb,
  nat_eq, if◌then◌else◌,
}
use schematica_api.Notifications.{add}

abbrev between : Char → Char → Char → Bool
between low high c = leb (code low) (code c) && leb (code c) (code high)

unfoldable pub is_name_char : Char → Bool
is_name_char c =
    between "a" "z" c
    || between "A" "Z" c
    || between "0" "9" c
    || nat_eq (code c) (code ".")
    || nat_eq (code c) (code "_")
    || nat_eq (code c) (code "-")

unfoldable pub is_at : Char → Bool
is_at c = nat_eq (code c) (code "@")

-- The longest run of the characters of a name at the start of a text.
unfoldable pub name_at_start : String → String
unfolding is_name_char
name_at_start Prim.Native.String.[] = ""
name_at_start (Prim.Native.String.◌∷◌ c s) =
    let rest = name_at_start s in if is_name_char c then Prim.Native.String.◌∷◌ c rest else ""

-- A match is an `@` with a name, and no part of a name is an `@`: the search goes on behind the `@`.
unfoldable pub match_all : String → List String
unfolding is_at name_at_start
match_all Prim.Native.String.[] = []
match_all (Prim.Native.String.◌∷◌ c s) =
    let rest = match_all s in
    if is_at c then if name_at_start s == "" then rest else name_at_start s ∷ rest else rest

-- `for (const match of matches) mentions.add(match[1])`
unfoldable pub add_all : List String → List String → List String
add_all [] mentions = mentions
add_all (name ∷ names) mentions = add_all names (add name mentions)

unfoldable pub parse_mentions : String → List String
unfolding match_all add_all
parse_mentions content = add_all (match_all content) []

mentions_test :
    parse_mentions "@bob, see @@alice_1 and mail x@bob or @ nobody." ≡ "bob" ∷ "alice_1" ∷ []
unfolding parse_mentions
mentions_test = refl
