-- ===== src/Logger/Files.antt =====
-- The files of the system, which are not code of the repository: the calls that the logger makes,
-- and what is relied on of them. A path is its bytes, and a text is a list of pieces.
use soa_p1_grupo_cu.Base.{ℕ, ◌≡◌, ◌≢◌, Bool, true, Option, none, some, List, [], ◌∷◌, ◌++◌}

abbrev pub FilePath : Type 0
FilePath = List ℕ

-- What `mkdir` gives: 0, -1 with `EEXIST`, or -1 with another error.
pub data Made : Type 0 where
  made exists denied : Made

pub record FileSystem (Piece : Type 0) : Type 1 where
  pub State : Type 0
  pub mkdir : State → FilePath → State × Made
  -- `fopen` with "w" and with "a"; `none` is NULL.
  pub open_w : State → FilePath → Option State
  pub open_a : State → FilePath → Option State
  -- `fprintf` to a file that has been opened, at its end.
  pub print : State → FilePath → Piece → State

-- The text that `fopen` with "a" leaves in a file.
abbrev pub or_empty : {A : Type 0} → Option (List A) → List A
or_empty none = []
or_empty (some xs) = xs

-- `content` is what a file holds, `present` says whether a path is there, and `writable` whether
-- `fopen` will open it. `Apart p q` says that the two paths name different files, and go on to as
-- the program runs: `a` and `./a` differ, but are not apart. What a call does to one file is seen
-- under all of its names, so nothing but the names apart from it is left as it was; but `fopen` with
-- "a" changes the text of no file, a file that is not there being one without text.
pub record IsFileSystem {Piece : Type 0} (F : FileSystem Piece) : Type 1 where
  pub content : F.State → FilePath → Option (List Piece)
  pub present : F.State → FilePath → Bool
  pub writable : F.State → FilePath → Bool
  pub Apart : FilePath → FilePath → Type 0
  pub apart_sym : (p q : FilePath) → Apart p q → Apart q p
  pub mkdir_content : (s : F.State) (d p : FilePath) → content (F.mkdir s d).0 p ≡ content s p
  pub mkdir_present :
      (s : F.State) (d : FilePath)
      → (F.mkdir s d).1 ≢ Made.denied
      → present (F.mkdir s d).0 d ≡ true
  pub mkdir_keeps :
      (s : F.State) (d p : FilePath) → present s p ≡ true → present (F.mkdir s d).0 p ≡ true
  pub opens_w :
      (s : F.State) (p : FilePath) → writable s p ≡ true → (s' : F.State) × (F.open_w s p ≡ some s')
  pub open_w_content :
      (s s' : F.State) (p : FilePath) → F.open_w s p ≡ some s' → content s' p ≡ some []
  pub open_w_other :
      (s s' : F.State) (p q : FilePath)
      → F.open_w s p ≡ some s'
      → Apart q p
      → content s' q ≡ content s q
  pub open_w_writable :
      (s s' : F.State) (p q : FilePath) → F.open_w s p ≡ some s' → writable s' q ≡ writable s q
  pub opens_a :
      (s : F.State) (p : FilePath) → writable s p ≡ true → (s' : F.State) × (F.open_a s p ≡ some s')
  pub open_a_content :
      (s s' : F.State) (p : FilePath)
      → F.open_a s p ≡ some s'
      → content s' p ≡ some (or_empty (content s p))
  pub open_a_other :
      (s s' : F.State) (p q : FilePath)
      → F.open_a s p ≡ some s'
      → Apart q p
      → content s' q ≡ content s q
  pub open_a_text :
      (s s' : F.State) (p q : FilePath)
      → F.open_a s p ≡ some s'
      → or_empty (content s' q) ≡ or_empty (content s q)
  pub open_a_there :
      (s s' : F.State) (p q : FilePath) (xs : List Piece)
      → F.open_a s p ≡ some s'
      → content s q ≡ some xs
      → content s' q ≡ some xs
  pub open_a_writable :
      (s s' : F.State) (p q : FilePath) → F.open_a s p ≡ some s' → writable s' q ≡ writable s q
  pub open_a_present :
      (s s' : F.State) (p q : FilePath)
      → F.open_a s p ≡ some s'
      → present s q ≡ true
      → present s' q ≡ true
  pub print_content :
      (s : F.State) (p : FilePath) (x : Piece) (xs : List Piece)
      → content s p ≡ some xs
      → content (F.print s p x) p ≡ some (xs ++ x ∷ [])
  pub print_other :
      (s : F.State) (p q : FilePath) (x : Piece)
      → Apart q p
      → content (F.print s p x) q ≡ content s q
  pub print_writable :
      (s : F.State) (p q : FilePath) (x : Piece) → writable (F.print s p x) q ≡ writable s q
