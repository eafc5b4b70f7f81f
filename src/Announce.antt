-- ===== src/Announce.antt =====
-- The generator of the changelog (news/announce.py). A directory is what `iterdir` lists in it; `int` of
-- a section's ranking, `str.isspace`, and the lines of a stripped description are parameters. An error
-- is the exception that ends the run.
mod Tests
use python_vscode.Prelude.{
  ℕ, zero, suc, ◌+◌, ◌-◌, ◌*◌, Text, Bool, true, false, not, ◌&&◌, ◌||◌, Option, none, some, List,
  [], ◌∷◌, ◌++◌, ltb, leb, ◌==◌, if◌then◌else◌, same, codes, take,
}

-- A file with its name and text.
pub record File : Type 0 where
  pub name : Text
  pub text : Text

-- What `iterdir` yields of the directory of news: a name, `is_dir()`, and the files in it.
pub record Entry : Type 0 where
  pub name : Text
  pub is_dir : Bool
  pub files : List File

pub record NewsEntry : Type 0 where
  pub issue_number : ℕ
  pub description : Text
  pub file : Text

pub record SectionTitle : Type 0 where
  pub index : ℕ
  pub title : Text
  pub files : List File

pub data Result (A : Type 0) : Type 0 where
  ok : A → Result A
  value_error index_error : Result A

abbrev is_digit : ℕ → Bool
is_digit c = leb 48 c && leb c 57

-- `\d+`: the number that the text begins with, its count of digits, and what follows
abbrev pub digits : ℕ → ℕ → Text → ℕ × ℕ × Text
digits value count [] = (value, count, [])
digits value count (c ∷ s) =
    if is_digit c then digits (value * 10 + (c - 48)) (suc count) s else (value, count, c ∷ s)

abbrev pub starts_with_md : Text → Bool
starts_with_md s = same (take 3 s) (codes ".md")

abbrev pub cons_ok : {A : Type 0} → A → Result (List A) → Result (List A)
cons_ok a (ok as') = ok (a ∷ as')
cons_ok a value_error = value_error
cons_ok a index_error = index_error

abbrev pub readme : Text
readme = codes "README.md"

module _ (is_space : ℕ → Bool) where
  -- `\S+\.md` after the dash: some characters that are no space, and then the extension
  abbrev pub nonce_then_md : Text → Bool
  nonce_then_md [] = false
  nonce_then_md (c ∷ s) = not (is_space c) && (starts_with_md s || nonce_then_md s)

  abbrev pub after_issue : Text → Bool
  after_issue [] = false
  after_issue (c ∷ s) = if c == 45 then nonce_then_md s else starts_with_md (c ∷ s)

  -- `FILENAME_RE.match`, which may leave an end of the name unread, and the issue
  unfoldable pub match_filename : Text → Option ℕ
  match_filename name =
      let (issue, count, rest) = digits 0 0 name in
      if ltb 0 count && after_issue rest then some issue else none

  unfoldable pub news_entries : List File → Result (List NewsEntry)
  unfolding match_filename
  news_entries [] = ok []
  news_entries (f ∷ files) =
      let rest = news_entries files in
      if same f.name readme then rest else elim (match_filename f.name) [
        | none ↦ value_error
        | some issue ↦
            cons_ok (record { issue_number = issue; description = f.text; file = f.name }) rest
      ]

-- `path.name.partition(' ')`: what is before the first space, and what is after it if there is one
abbrev pub partition : Text → Text × Option Text
partition [] = ([], none)
partition (c ∷ s) =
    let (before, after) = partition s in if c == 32 then ([], some s) else (c ∷ before, after)

abbrev pub is_hidden : Text → Bool
is_hidden [] = false
is_hidden (c ∷ s) = c == 46

-- `sorted(found, key=operator.attrgetter('index'))`, which is stable
unfoldable pub insert_section : SectionTitle → List SectionTitle → List SectionTitle
insert_section t [] = t ∷ []
insert_section t (u ∷ us) =
    let rest = insert_section t us in if leb t.index u.index then t ∷ u ∷ us else u ∷ rest

unfoldable pub sort_sections : List SectionTitle → List SectionTitle
unfolding insert_section
sort_sections [] = []
sort_sections (t ∷ ts) = insert_section t (sort_sections ts)

module _ (is_space : ℕ → Bool) (int : Text → Option ℕ) (stripped_lines : Text → List Text)
    (decimal : ℕ → Text) where
  -- The sections that are found; a name without a space is skipped, and a ranking that is no number
  -- raises.
  unfoldable pub found_sections : List Entry → Result (List SectionTitle)
  found_sections [] = ok []
  found_sections (e ∷ entries) =
      let rest = found_sections entries in
      if not e.is_dir || is_hidden e.name
      then rest
      else let (position, after) = partition e.name in
        elim after [
          | none ↦ rest
          | some title ↦ elim (int position) [
            | none ↦ value_error
            | some index ↦ cons_ok (record { index = index; title = title; files = e.files }) rest
          ]
        ]

  abbrev pub sorted_ok : Result (List SectionTitle) → Result (List SectionTitle)
  sorted_ok (ok found) = ok (sort_sections found)
  sorted_ok value_error = value_error
  sorted_ok index_error = index_error

  unfoldable pub sections : List Entry → Result (List SectionTitle)
  unfolding found_sections sort_sections
  sections entries = sorted_ok (found_sections entries)

  abbrev pub gather_section :
      SectionTitle
      → Result (List NewsEntry)
      → Result (List (SectionTitle × List NewsEntry))
      → Result (List (SectionTitle × List NewsEntry))
  gather_section t (ok news) rest = cons_ok (t, news) rest
  gather_section t value_error rest = value_error
  gather_section t index_error rest = index_error

  abbrev pub gather_all : List SectionTitle → Result (List (SectionTitle × List NewsEntry))
  gather_all [] = ok []
  gather_all (t ∷ ts) = gather_section t (news_entries is_space t.files) (gather_all ts)

  abbrev pub gather_ok : Result (List SectionTitle) → Result (List (SectionTitle × List NewsEntry))
  gather_ok (ok titles) = gather_all titles
  gather_ok value_error = value_error
  gather_ok index_error = index_error

  unfoldable pub gather : List Entry → Result (List (SectionTitle × List NewsEntry))
  unfolding sections news_entries
  gather entries = gather_ok (sections entries)

  abbrev pub indented : List Text → Text → Text
  indented [] last = codes "\n   " ++ last
  indented (l ∷ lines) last = codes "\n   " ++ (l ++ indented lines last)

  abbrev pub issue_md : ℕ → Text
  issue_md n =
      codes "([#"
      ++ (decimal n
          ++ (codes "](https://github.com/Microsoft/vscode-python/issues/"
              ++ (decimal n ++ codes "))")))

  -- `entry_lines[0]` raises if the description is blank.
  unfoldable pub entry_markdown : NewsEntry → Result Text
  entry_markdown e = elim (stripped_lines e.description) [
    | [] ↦ index_error
    | l ∷ lines ↦ ok (codes "1. " ++ (l ++ indented lines (issue_md e.issue_number)))
  ]

  abbrev pub entries_markdown : List NewsEntry → Result (List Text)
  entries_markdown [] = ok []
  entries_markdown (e ∷ entries) =
      let rest = entries_markdown entries in
      elim (entry_markdown e) [
        | ok t ↦ cons_ok t rest
        | value_error ↦ value_error
        | index_error ↦ index_error
      ]

  abbrev pub append_ok : Result (List Text) → Result (List Text) → Result (List Text)
  append_ok (ok xs) (ok ys) = ok (xs ++ ys)
  append_ok (ok xs) value_error = value_error
  append_ok (ok xs) index_error = index_error
  append_ok value_error ys = value_error
  append_ok index_error ys = index_error

  -- The lines of `changelog_markdown` before they are joined
  unfoldable pub changelog_lines : List (SectionTitle × List NewsEntry) → Result (List Text)
  unfolding entry_markdown
  changelog_lines [] = ok []
  changelog_lines ((section, entries) ∷ data') =
      cons_ok (codes "### " ++ section.title)
        (cons_ok [] (append_ok (entries_markdown entries) (cons_ok [] (changelog_lines data'))))
