-- ===== src/Config/Manual.antt =====
-- The start of `main` in nat_project/version3/main.c: the static mappings are loaded from a file or entered by
-- hand.
use dpdk_for_beginners.Base.{
  ℕ, ◌+◌, ◌≡◌, ◌≢◌, refl, inl, inr, Bool, true, false, Option, none, some, List, [], ◌∷◌, ◌==◌,
  ==_ne, All, Option-cases, if◌then◌else◌,
}
use dpdk_for_beginners.Dpdk.{HashTable}
use dpdk_for_beginners.Config.{
  Text, Malloc, read_line, StaticEntry, take_line, load_lines, load_file, nat_add_mapping,
  nat_load_mappings,
}

-- `strcmp(a, b) == 0`
unfoldable pub same_text : Text → Text → Bool
same_text [] [] = true
same_text [] (y ∷ ys) = false
same_text (x ∷ xs) [] = false
same_text (x ∷ xs) (y ∷ ys) = let rest = same_text xs ys in if x == y then rest else false

-- "exit"
abbrev pub exit_text : Text
exit_text = 101 ∷ 120 ∷ 105 ∷ 116 ∷ []

module _ (inet_pton : Text → ℕ → ℕ) (H : HashTable ℕ StaticEntry) where
  -- The table after "exit", the end of the program in `nat_add_mapping`, or the table of a program that waits
  -- for another word.
  pub data Entered : Type 0 where
    finished : H.Table → Entered
    exited : Entered
    waiting : H.Table → Entered

  -- The loop over the words that `scanf` reads, each with what `malloc` gives after it.
  unfoldable pub enter_mappings : List (Malloc × Text) → H.Table → Entered
  enter_mappings [] t = waiting t
  enter_mappings ((_, private_ip) ∷ []) t =
      if same_text private_ip exit_text then finished t else waiting t
  enter_mappings ((_, private_ip) ∷ (memory, public_ip) ∷ words) t =
      if same_text private_ip exit_text
      then finished t
      else elim (nat_add_mapping inet_pton H memory private_ip public_ip t) [
        | none ↦ exited
        | some u ↦ enter_mappings words u
      ]

  abbrev from_file : Option (H.Table × ℕ) → Entered
  from_file none = exited
  from_file (some (t, count)) = finished t

  -- the table by the `option` that was entered
  unfoldable pub choose_mappings :
      (Text → Option (Text × Text))
      → ℕ
      → Option (List (Malloc × Text))
      → List (Malloc × Text)
      → H.Table
      → Entered
  unfolding enter_mappings
  choose_mappings sscanf option file words t =
      if option == 1
      then from_file (nat_load_mappings inet_pton H sscanf file t)
      else enter_mappings words t

module _ (inet_pton : Text → ℕ → ℕ) (H : HashTable ℕ StaticEntry)
    (sscanf : Text → Option (Text × Text)) where
  abbrev words_of : Malloc → Option (Text × Text) → List (Malloc × Text) → List (Malloc × Text)
  words_of memory none words = words
  words_of memory (some (private_ip, public_ip)) words =
      (none, private_ip) ∷ (memory, public_ip) ∷ words

  -- The words to enter for the valid lines of a file, and "exit".
  abbrev pub typed : List (Malloc × Text) → List (Malloc × Text)
  typed [] = (none, exit_text) ∷ []
  typed ((memory, line) ∷ lines) = words_of memory (read_line sscanf line) (typed lines)

  abbrev NotExit : Option (Text × Text) → Type 0
  NotExit none = Unit
  NotExit (some (private_ip, public_ip)) = same_text private_ip exit_text ≡ false

  -- No valid line has "exit" for its private address.
  abbrev pub NoExit : List (Malloc × Text) → Type 0
  NoExit lines = All (λ l. NotExit (read_line sscanf l.1)) lines

  enter_line :
      (memory : Malloc) (o : Option (Text × Text)) (words lines : List (Malloc × Text))
      (t : H.Table) (count : ℕ)
      → NotExit o
      → ((u : H.Table) (n : ℕ)
          → enter_mappings inet_pton H words u
            ≡ from_file inet_pton H (load_lines sscanf (nat_add_mapping inet_pton H) lines u n))
      → enter_mappings inet_pton H (words_of memory o words) t
        ≡ from_file inet_pton H
            (elim (take_line sscanf (nat_add_mapping inet_pton H) memory o t count) [
              | none ↦ none
              | some (r, n) ↦ load_lines sscanf (nat_add_mapping inet_pton H) lines r n
            ])
  unfolding enter_mappings take_line
  enter_line memory none words lines t count other rest = rest t count
  enter_line memory (some (a, b)) words lines t count other rest =
      elim (Option-cases (nat_add_mapping inet_pton H memory a b t)) [
        | inl n ↦ rw (other, n) refl
        | inr (u, e) ↦ rw (other, e) (rest u (count + 1))
      ]

  enter_lines :
      (lines : List (Malloc × Text)) (t : H.Table) (count : ℕ)
      → NoExit lines
      → enter_mappings inet_pton H (typed lines) t
        ≡ from_file inet_pton H (load_lines sscanf (nat_add_mapping inet_pton H) lines t count)
  unfolding enter_mappings load_lines same_text
  enter_lines [] t count other = refl
  enter_lines ((memory, line) ∷ lines) t count (here, other) =
      enter_line memory (read_line sscanf line) (typed lines) lines t count here
        (λ u n. enter_lines lines u n other)

  -- To enter by hand the mappings of a file, the lines that are not valid left out, and then "exit", does what
  -- loading the file does, also where the program exits because there is no memory or the table is full, if no
  -- private address in the file is "exit".
  pub choose_mappings-typed :
      (option : ℕ) (file : Option (List (Malloc × Text))) (lines words : List (Malloc × Text))
      (t : H.Table)
      → option ≢ 1
      → NoExit lines
      → choose_mappings inet_pton H sscanf option file (typed lines) t
        ≡ choose_mappings inet_pton H sscanf 1 (some lines) words t
  unfolding choose_mappings nat_load_mappings load_file
  choose_mappings-typed option file lines words t by_hand other =
      rw (==_ne option 1 by_hand) (enter_lines lines t 0 other)
