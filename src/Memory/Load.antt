-- ===== src/Memory/Load.antt =====
-- `load_words`: a program image in memory.
use clear_core.Prelude.{
  ℕ, ◌+◌, ◌*◌, ◌%◌, ◌^◌, ◌≤◌, ◌<◌, ◌≡◌, refl, Option, none, some, List, [], ◌∷◌, arith, ◌==◌,
  if◌then◌else◌, length, ◌∙◌, Bool, false, true,
}
use clear_core.Memory.{Memory, IsMemory, write_word, read_word, load_loop, load_words}
use clear_core.Memory.Access.{write_word-IsMemory, write_word-fails, read_word-write_word}

abbrev pub AllWords : List ℕ → Type 0
AllWords [] = Unit
AllWords (w ∷ words) = (w < 2 ^ 32) × AllWords words

load_loop-IsMemory :
    (m : Memory) (addr i : ℕ) (words : List ℕ) → IsMemory m → IsMemory (load_loop m addr i words)
unfolding load_loop
load_loop-IsMemory m addr i [] h = h
load_loop-IsMemory m addr i (w ∷ words) h =
    load_loop-IsMemory (write_word m ((addr + i * 4) % 2 ^ 32) w).0 addr (i + 1) words
      (write_word-IsMemory m ((addr + i * 4) % 2 ^ 32) w h)

pub write_word-size : (m : Memory) (a v : ℕ) → (write_word m a v).0.size ≡ m.size
unfolding write_word
write_word-size m a v = ground arith

load_loop-size :
    (m : Memory) (addr i : ℕ) (words : List ℕ) → (load_loop m addr i words).size ≡ m.size
unfolding load_loop
load_loop-size m addr i [] = refl
load_loop-size m addr i (w ∷ words) =
    load_loop-size (write_word m ((addr + i * 4) % 2 ^ 32) w).0 addr (i + 1) words
    ∙ write_word-size m ((addr + i * 4) % 2 ^ 32) w

pub load_words-size :
    (m m' : Memory) (addr : ℕ) (words : List ℕ) (done : Bool)
    → load_words m addr words ≡ some (m', done)
    → m'.size ≡ m.size
unfolding load_words
load_words-size m m' addr words done h = ground (arith, load_loop-size m addr 0 words)

-- What the address `b` reads as after the loop from index `i`: the word of the image that stands
-- there, else what it was.
abbrev pub overlaid : Option ℕ → Option ℕ → Option ℕ
overlaid none old = old
overlaid (some w) old = some w

abbrev pub image_at : List ℕ → ℕ → ℕ → Option ℕ
image_at [] base b = none
image_at (w ∷ words) base b = if base == b then some w else image_at words (base + 4) b

-- Below the image there is none of it.
image_at-below : (words : List ℕ) (base b : ℕ) → b < base → image_at words base b ≡ none
image_at-below [] base b h = refl
image_at-below (w ∷ words) base b h = ground (arith, image_at-below words (base + 4) b)

load_loop-reads :
    (m : Memory) (addr i : ℕ) (words : List ℕ) (b : ℕ)
    → IsMemory m
    → AllWords words
    → addr % 4 ≡ 0
    → addr + i * 4 + length words * 4 ≤ m.size
    → m.size ≤ 2 ^ 32
    → read_word (load_loop m addr i words) b
      ≡ overlaid (image_at words (addr + i * 4) b) (read_word m b)
unfolding load_loop
load_loop-reads m addr i [] b h ws al fits small = refl
load_loop-reads m addr i (w ∷ words) b h ws al fits small = ground (
  arith,
  load_loop-reads (write_word m ((addr + i * 4) % 2 ^ 32) w).0 addr (i + 1) words b,
  write_word-IsMemory m ((addr + i * 4) % 2 ^ 32) w h,
  write_word-size m ((addr + i * 4) % 2 ^ 32) w,
  write_word-fails m ((addr + i * 4) % 2 ^ 32) w,
  read_word-write_word m ((addr + i * 4) % 2 ^ 32) b w,
  image_at-below words (addr + i * 4 + 4) b,
)

-- In a memory of bytes, of at most 4 GiB, an image of 32-bit words at an aligned address that fits is
-- loaded whole: each word address of the image reads
-- as its word, every other address as before, and the size stays.
pub load_words-reads :
    (m : Memory) (addr : ℕ) (words : List ℕ) (b : ℕ)
    → IsMemory m
    → AllWords words
    → addr % 4 ≡ 0
    → addr + length words * 4 ≤ m.size
    → m.size ≤ 2 ^ 32
    → (out : Memory) × (load_words m addr words ≡ some (out, true))
      × (read_word out b ≡ overlaid (image_at words addr b) (read_word m b))
      × (out.size ≡ m.size)
unfolding load_words
load_words-reads m addr words b h ws al fits small = (
  load_loop m addr 0 words,
  ground arith,
  ground (arith, load_loop-reads m addr 0 words b),
  load_loop-size m addr 0 words,
)

-- An image that does not fit is refused, with the memory as it was.
pub load_words-refuses :
    (m : Memory) (addr : ℕ) (words : List ℕ)
    → addr % 4 ≡ 0
    → m.size < addr + length words * 4
    → load_words m addr words ≡ some (m, false)
unfolding load_words
load_words-refuses m addr words al big = ground arith

pub load_words-IsMemory :
    (m : Memory) (addr : ℕ) (words : List ℕ) {out : Memory} {done : Bool}
    → IsMemory m
    → load_words m addr words ≡ some (out, done)
    → IsMemory out
unfolding load_words
load_words-IsMemory m addr words h e a = ground (arith, load_loop-IsMemory m addr 0 words h a, h a)
