-- ===== src/Control/Keys.antt =====
-- The keys of the control store's items.
use Prim.Native.Char.{code}
use text.Mathlib.TextLemmas.{cons-append}
use aws_devops_sdet_demo.Prelude.{ℕ, String, ◌≡◌, ◌≢◌, ap, arith}
use aws_devops_sdet_demo.Control.Laws.{lock_key, nonce_key, count_key}

head_code : String → ℕ
head_code String.[] = 0
head_code (String.◌∷◌ c s) = code c

head-nonce : (x : String) → head_code (nonce_key x) ≡ 110
unfolding head_code
head-nonce x = rw cons-append

head-count : (x : String) → head_code (count_key x) ≡ 99
unfolding head_code
head-count x = rw cons-append

apart : (s t : String) → head_code s ≢ head_code t → s ≢ t
apart s t h e = h (ap head_code e)

pub nonce-ne-count : (x y : String) → nonce_key x ≢ count_key y
nonce-ne-count x y = apart _ _ (omega (arith, head-nonce x, head-count y))

pub nonce-ne-lock : (x : String) → nonce_key x ≢ lock_key
unfolding head_code
nonce-ne-lock x = apart _ _ (omega (arith, head-nonce x))

pub nonce-ne-killswitch : (x : String) → nonce_key x ≢ "killswitch"
unfolding head_code
nonce-ne-killswitch x = apart _ _ (omega (arith, head-nonce x))

pub lock-ne-count : (y : String) → lock_key ≢ count_key y
unfolding head_code
lock-ne-count y = apart _ _ (omega (arith, head-count y))

pub lock-ne-nonce : (y : String) → lock_key ≢ nonce_key y
unfolding head_code
lock-ne-nonce y = apart _ _ (omega (arith, head-nonce y))

pub count-ne-lock : (y : String) → count_key y ≢ lock_key
unfolding head_code
count-ne-lock y = apart _ _ (omega (arith, head-count y))
