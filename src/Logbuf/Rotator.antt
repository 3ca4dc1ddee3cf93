-- ===== src/Logbuf/Rotator.antt =====
-- logbuf/file.go: the log file that is moved aside when it is full.
--
-- `files 0` is the file at `path`, `files i` the one at `path.i`. `opens` says whether the file can be
-- opened at this call. A write to a nil file returns `os.ErrInvalid`.
use caochuan.Base.{
  ℕ, zero, suc, ◌+◌, ◌-◌, ◌<◌, ◌≡◌, refl, ◌∙◌, Bool, true, false, Option, none, some, List, [],
  ◌++◌, arith, ltb, ◌==◌, if◌then◌else◌, length,
}

abbrev pub Bytes : Type 0
Bytes = List ℕ

pub record Rotator : Type 0 where
  pub files : ℕ → Option Bytes
  pub is_open : Bool
  pub size : ℕ
  pub max : ℕ
  pub keep : ℕ

pub data LogError : Type 0 where
  cannot_open invalid : LogError

-- `os.Rename` of a file to the next number; without the file it fails and changes nothing.
abbrev pub rename : ℕ → (ℕ → Option Bytes) → ℕ → Option Bytes
rename i files j = elim (files i) [
  | none ↦ files j
  | some b ↦ if j == i then none else if j == i + 1 then some b else files j
]

-- The loop of `rotate`, from the k-th file down to the first.
unfoldable pub shift : ℕ → (ℕ → Option Bytes) → ℕ → Option Bytes
shift zero files = files
shift (suc k) files = shift k (rename (suc k) files)

-- `rotate`
unfoldable pub rotate : Rotator → Rotator
rotate r = record r { files = rename 0 (shift (r.keep - 1) r.files); is_open = false; size = 0 }

abbrev pub content : Option Bytes → Bytes
content none = []
content (some b) = b

-- `ensure`: an existing file is appended to, and a new one is created.
unfoldable pub ensure : Bool → Rotator → Option Rotator
ensure opens r =
    if r.is_open
    then some r
    else if opens
    then some (record r {
      files = λ j. if j == 0 then some (content (r.files 0)) else r.files j;
      is_open = true;
      size = length (content (r.files 0));
    })
    else none

-- `r.f.Write(p)`, with the size that it adds.
unfoldable pub append : Bytes → Rotator → Option LogError × Rotator
append p r =
    if r.is_open
    then (
      none,
      record r {
        files = λ j. if j == 0 then some (content (r.files 0) ++ p) else r.files j;
        size = r.size + length p;
      },
    )
    else (some invalid, r)

-- `Write`
unfoldable pub write_log : Bool → Bytes → Rotator → Option LogError × Rotator
write_log opens p r = elim (ensure opens r) [
  | none ↦ (some cannot_open, r)
  | some r' ↦ append p (if ltb r'.max (r'.size + length p) then rotate r' else r')
]

shift-current : (k : ℕ) (files : ℕ → Option Bytes) → shift k files 0 ≡ files 0
unfolding shift
shift-current zero files = refl
shift-current (suc k) files = shift-current k (rename (suc k) files) ∙ ground arith

-- A write to an open log file that has no room for it fails: the file is moved to the first number
-- as it is, there is no current file, and none is open.
pub write_log-full :
    (opens : Bool) (p b : Bytes) (r : Rotator)
    → r.is_open ≡ true
    → r.files 0 ≡ some b
    → r.max < r.size + length p
    → ((write_log opens p r).0 ≡ some invalid)
      × ((write_log opens p r).1.files 0 ≡ none)
      × ((write_log opens p r).1.files 1 ≡ some b)
      × ((write_log opens p r).1.is_open ≡ false)
unfolding write_log append rotate ensure
write_log-full opens p b r o e h =
    let c = shift-current (r.keep - 1) r.files ∙ e in
    (ground (arith, c), ground (arith, c), ground (arith, c), ground (arith, c))
