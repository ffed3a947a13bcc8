-- ===== src/Dockerfile.antt =====
-- internal/core/images.go: the images that a Dockerfile names, by its lines as bytes. The white
-- space and the letters that have a capital are those of ASCII.
pub mod Froms
use testcontainers_go.Base.{
  ℕ, zero, suc, ◌-◌, Bool, true, false, ◌&&◌, ◌||◌, Option, none, some, List, [], ◌∷◌, ◌++◌, map,
  if◌then◌else◌, ◌==◌, leb, length, Bytes,
}

unfoldable pub is_space : ℕ → Bool
is_space c = (leb 9 c && leb c 13) || (c == 32)

unfoldable pub trim_left : Bytes → Bytes
unfolding is_space
trim_left [] = []
trim_left (c ∷ cs) = if is_space c then trim_left cs else c ∷ cs

unfoldable pub trimmed : ℕ → Bytes → Bytes
unfolding is_space
trimmed c [] = if is_space c then [] else c ∷ []
trimmed c (d ∷ ds) = c ∷ d ∷ ds

unfoldable pub trim_right : Bytes → Bytes
unfolding trimmed
trim_right [] = []
trim_right (c ∷ cs) = trimmed c (trim_right cs)

-- `strings.TrimSpace`
unfoldable pub trim_space : Bytes → Bytes
unfolding trim_left trim_right
trim_space cs = trim_right (trim_left cs)

-- `strings.ToUpper`
unfoldable pub upper : ℕ → ℕ
upper c = if leb 97 c && leb c 122 then c - 32 else c

-- `strings.HasPrefix`
unfoldable pub starts_with : Bytes → Bytes → Bool
starts_with [] cs = true
starts_with (p ∷ ps) [] = false
starts_with (p ∷ ps) (c ∷ cs) = (p == c) && starts_with ps cs

unfoldable pub dropped : ℕ → Bytes → Bytes
dropped zero cs = cs
dropped (suc n) [] = []
dropped (suc n) (c ∷ cs) = dropped n cs

-- `strings.TrimPrefix`
unfoldable pub trim_prefix : Bytes → Bytes → Bytes
unfolding starts_with dropped
trim_prefix p cs = if starts_with p cs then dropped (length p) cs else cs

-- `strings.Split(s, " ")[0]`
unfoldable pub first_part : Bytes → Bytes
first_part [] = []
first_part (c ∷ cs) = let rest = first_part cs in if c == 32 then [] else c ∷ rest

-- `strings.ReplaceAll`, at a text that is not empty: so many bytes are still to be passed over.
unfoldable pub replaced : Bytes → Bytes → ℕ → Bytes → Bytes
unfolding starts_with
replaced old fresh n [] = []
replaced old fresh (suc n) (c ∷ cs) = replaced old fresh n cs
replaced old fresh zero (c ∷ cs) =
    let skipped = replaced old fresh (length old - 1) cs in
    let kept = replaced old fresh zero cs in
    if starts_with old (c ∷ cs) then fresh ++ skipped else c ∷ kept

-- The loop over the build arguments; one without a value is passed over.
unfoldable pub interpolate : List (Bytes × Option Bytes) → Bytes → Bytes
unfolding replaced
interpolate [] image = image
interpolate ((k, none) ∷ args) image = interpolate args image
interpolate ((k, some v) ∷ args) image =
    interpolate args (replaced (36 ∷ 123 ∷ (k ++ 125 ∷ [])) v 0 image)

abbrev pub from : Bytes
from = 70 ∷ 82 ∷ 79 ∷ 77 ∷ []

-- The body of the loop over the lines.
unfoldable pub image_of_line : List (Bytes × Option Bytes) → Bytes → Option Bytes
unfolding trim_space upper starts_with trim_prefix first_part interpolate
image_of_line args line =
    let l = trim_space line in
    if starts_with from (map upper l)
    then some (interpolate args (first_part (trim_space (trim_prefix from l))))
    else none

unfoldable pub with_image : Option Bytes → List Bytes → List Bytes
with_image none images = images
with_image (some i) images = i ∷ images

-- `ExtractImagesFromReader`, at the lines that the scanner reads.
unfoldable pub extract_images : List (Bytes × Option Bytes) → List Bytes → List Bytes
unfolding image_of_line with_image
extract_images args [] = []
extract_images args (l ∷ ls) = with_image (image_of_line args l) (extract_images args ls)
