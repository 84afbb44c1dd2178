-- ===== src/Scp/Placed.antt =====
-- Where a tree is to stand on the disk of the sink.
use gosutils.Prelude.{
  ◌≡◌, refl, Bool, true, false, ◌&&◌, not, Option, none, some, arith, if◌then◌else◌,
}
use gosutils.Prelude.Text.{Text, is_empty, text_eq, contains_rune, codes}
use gosutils.Scp.Send.{Node, Nodes, file, dir, nil, cons}
use gosutils.Scp.Sink.{Host}
use gosutils.Scp.Contents.{joined}

-- The base of a path with no separator that is no dot.
abbrev pub IsName : Text → Type 0
IsName n =
    (contains_rune n b'/' ≡ false)
    × (is_empty n ≡ false)
    × (text_eq n (codes ".") ≡ false)
    × (text_eq n (codes "..") ≡ false)

-- What gofilepath gives for Clean, Dir and Join, and a disk that takes the contents of every file.
pub record IsUsual (h : Host) : Type 0 where
  pub clean : Text → Text
  pub parent-join_path : (d n : Text) → IsName n → h.parent (h.join_path d n) ≡ clean d
  pub join_path-clean : (d n : Text) → h.join_path (clean d) n ≡ h.join_path d n
  pub clean-join_path : (d n : Text) → clean (h.join_path d n) ≡ h.join_path d n
  pub clean-clean : (d : Text) → clean (clean d) ≡ clean d
  pub creates_all : (disk : h.Disk) (n : Text) → h.creates disk n ≡ true
  pub accepts_all : (disk : h.Disk) (b : Text) → h.accepts disk b ≡ true

abbrev pub name_of : Node → Text
name_of (file name mode opens size reads) = name
name_of (dir name mode opens fis) = name

module _ (h : Host) where
  open h use {Disk, join_path, is_file, is_writeable, install, chmod, mkdir_all}

  abbrev pub then_place : Option Disk → (Disk → Option Disk) → Option Disk
  then_place none k = none
  then_place (some d) k = k d

  unfoldable mutual
    -- The tree at a path: a file that is read-only stops it, as do the refusals of the disk.
    pub place : Text → Node → Disk → Option Disk
    place path (file name mode opens size reads) disk =
        if is_file disk path && not (is_writeable disk path)
        then none
        else then_place (install path (joined reads) disk) (λ d. some (chmod path mode d))
    place path (dir name mode opens fis) disk =
        then_place (mkdir_all path mode disk) (λ d. place_all path fis d)

    pub place_all : Text → Nodes → Disk → Option Disk
    place_all path nil disk = some disk
    place_all path (cons fi fis) disk =
        then_place (place (join_path path (name_of fi)) fi disk) (λ d. place_all path fis d)

pub some_eq : {A : Type 0} {a b : A} → some a ≡ some b → a ≡ b
some_eq e = ground arith

-- How a file or directory comes to be placed.
pub placed_file :
    (h : Host) (blocked : Bool) (i : Option (Host.Disk h)) (f : Host.Disk h → Host.Disk h)
    {v : Host.Disk h}
    → (if blocked then none else then_place h i (λ d. some (f d))) ≡ some v
    → (blocked ≡ false) × (d : Host.Disk h) × (i ≡ some d) × (f d ≡ v)
placed_file h true i f e = cc
placed_file h false none f e = cc
placed_file h false (some d) f e = (refl, d, refl, ground arith)

pub then_place-some :
    (h : Host) (i : Option (Host.Disk h)) (k : Host.Disk h → Option (Host.Disk h)) {v : Host.Disk h}
    → then_place h i k ≡ some v
    → (d : Host.Disk h) × (i ≡ some d) × (k d ≡ some v)
then_place-some h none k e = cc
then_place-some h (some d) k e = (d, refl, e)

unfoldable mutual
  -- Each name in the tree is a base.
  pub HasNames : Nodes → Type 0
  HasNames nil = Unit
  HasNames (cons fi fis) = IsName (name_of fi) × IsNamed fi × HasNames fis

  -- So is each name below it.
  pub IsNamed : Node → Type 0
  IsNamed (file name mode opens size reads) = Unit
  IsNamed (dir name mode opens fis) = HasNames fis
