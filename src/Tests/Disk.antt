-- ===== src/Tests/Disk.antt =====
-- A disk in memory, on which every call succeeds, and each file has one name: it meets what `IsFileSystem` asks for.
use soa_p1_grupo_cu.Base.{
  ◌≡◌, ◌≢◌, refl, sym, ◌∙◌, ap, Bool, true, Option, some, List, [], ◌∷◌, ◌++◌, Bool-cases, inl, inr,
  if◌then◌else◌,
}
use soa_p1_grupo_cu.Parser.Options.{same_text}
use soa_p1_grupo_cu.Parser.Options.Usable.{same_text-same, same_text_refl}
use soa_p1_grupo_cu.Logger.Files.{FilePath, FileSystem, IsFileSystem, made, exists, or_empty}
use soa_p1_grupo_cu.Logger.{Piece}
use soa_p1_grupo_cu.Tests.Fixed.{fixed}

pub record Disk : Type 0 where
  pub file : FilePath → Option (List Piece)
  pub dir : FilePath → Bool

abbrev pub set : {A : Type 0} (p : FilePath) (a : A) (f : FilePath → A) (q : FilePath) → A
set p a f q = if same_text p q then a else f q

set-same : {A : Type 0} (p : FilePath) (a : A) (f : FilePath → A) → set p a f p ≡ a
set-same p a f = rw (same_text_refl p) refl

set-other : {A : Type 0} (p q : FilePath) (a : A) (f : FilePath → A) → q ≢ p → set p a f q ≡ f q
set-other p q a f other = elim (Bool-cases (same_text p q)) [
  | inl same ↦ absurd (other (sym (same_text-same p q same)))
  | inr differs ↦ rw differs refl
]

abbrev pub disk : FileSystem Piece
disk = record {
  State = Disk;
  mkdir = λ s d. (record s { dir = set d true s.dir }, if s.dir d then exists else made);
  open_w = λ s p. some (record s { file = set p (some []) s.file });
  open_a = λ s p. some (record s { file = set p (some (or_empty (s.file p))) s.file });
  print = λ s p x. record s { file = set p (some (or_empty (s.file p) ++ x ∷ [])) s.file };
}

set-true : (d q : FilePath) (f : FilePath → Bool) → f q ≡ true → set d true f q ≡ true
set-true d q f h = elim (Bool-cases (same_text d q)) [
  | inl same ↦ rw same refl
  | inr differs ↦ rw differs h
]

-- To open for appending gives no file another text.
set-empty :
    (p q : FilePath) (f : FilePath → Option (List Piece))
    → or_empty (set p (some (or_empty (f p))) f q) ≡ or_empty (f q)
set-empty p q f = elim (Bool-cases (same_text p q)) [
  | inl same ↦ rw same (ap (λ x. or_empty (f x)) (same_text-same p q same))
  | inr differs ↦ rw differs refl
]

set-there :
    (p q : FilePath) (xs : List Piece) (f : FilePath → Option (List Piece))
    → f q ≡ some xs
    → set p (some (or_empty (f p))) f q ≡ some xs
set-there p q xs f held = elim (Bool-cases (same_text p q)) [
  | inl same ↦
      rw same (
        ap (λ x. some (or_empty (f x))) (same_text-same p q same)
        ∙ ap (λ c. some (or_empty c)) held)
  | inr differs ↦ rw differs held
]

-- The disk after a call that gives one.
given : {s s' : Disk} → some s ≡ some s' → s' ≡ s
given e = sym (cc e)

pub disk-IsFileSystem : IsFileSystem disk
disk-IsFileSystem = record {
  content = λ s. s.file;
  present = λ s. s.dir;
  writable = λ s p. true;
  Apart = λ p q. p ≢ q;
  apart_sym = λ p q other e. other (sym e);
  mkdir_content = λ s d p. refl;
  mkdir_present = λ s d allowed. set-same d true s.dir;
  mkdir_keeps = λ s d p h. set-true d p s.dir h;
  opens_w = λ s p h. (_, refl);
  open_w_content = λ s s' p e. ap (λ (t : Disk). t.file p) (given e) ∙ set-same p (some []) s.file;
  open_w_other = λ s s' p q e other.
      ap (λ (t : Disk). t.file q) (given e) ∙ set-other p q (some []) s.file other;
  open_w_writable = λ s s' p q e. refl;
  opens_a = λ s p h. (_, refl);
  open_a_content = λ s s' p e.
      ap (λ (t : Disk). t.file p) (given e) ∙ set-same p (some (or_empty (s.file p))) s.file;
  open_a_other = λ s s' p q e other.
      ap (λ (t : Disk). t.file q) (given e)
      ∙ set-other p q (some (or_empty (s.file p))) s.file other;
  open_a_text =
      λ s s' p q e. ap (λ (t : Disk). or_empty (t.file q)) (given e) ∙ set-empty p q s.file;
  open_a_there =
      λ s s' p q xs e held. ap (λ (t : Disk). t.file q) (given e) ∙ set-there p q xs s.file held;
  open_a_writable = λ s s' p q e. refl;
  open_a_present = λ s s' p q e h. ap (λ (t : Disk). t.dir q) (given e) ∙ h;
  print_content = λ s p x xs e.
      set-same p (some (or_empty (s.file p) ++ x ∷ [])) s.file
      ∙ ap (λ c. some (or_empty c ++ x ∷ [])) e;
  print_other = λ s p q x other. set-other p q (some (or_empty (s.file p) ++ x ∷ [])) s.file other;
  print_writable = λ s p q x. refl;
}

pub disk_writable : (s : Disk) (p : FilePath) → disk-IsFileSystem.writable s p ≡ true
unfolding disk-IsFileSystem
disk_writable s p = refl

pub disk-Apart : (p q : FilePath) → p ≢ q → disk-IsFileSystem.Apart p q
unfolding disk-IsFileSystem
disk-Apart p q other = other
