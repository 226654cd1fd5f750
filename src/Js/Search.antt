-- ===== src/Js/Search.antt =====
-- `startsWith` and `includes`, also after `toLowerCase`, for texts that the source writes down in
-- small letters. Of the capitals those of ASCII and the Kelvin sign become small ASCII letters.
use Prim.Native.Char.{code}
use adg_lang.Common.{ℕ, ◌+◌, Bool, true, false, ◌&&◌, ◌||◌, String, leb, ◌==◌, if◌then◌else◌}

abbrev pub lower_code : ℕ → ℕ
lower_code c = if leb 65 c && leb c 90 then c + 32 else if c == 8490 then 107 else c

-- The text begins with the part, where its codes are read through `read`.
unfoldable pub begins : (ℕ → ℕ) → String → String → Bool
begins read String.[] s = true
begins read (String.◌∷◌ c p) String.[] = false
begins read (String.◌∷◌ c p) (String.◌∷◌ d s) = code c == read (code d) && begins read p s

unfoldable pub occurs : (ℕ → ℕ) → String → String → Bool
occurs read part String.[] = begins read part ""
occurs read part (String.◌∷◌ c s) = begins read part (String.◌∷◌ c s) || occurs read part s

-- `text.startsWith(part)`
unfoldable pub starts_with : String → String → Bool
unfolding begins
starts_with part text = begins (λ c. c) part text

-- `text.toLowerCase().includes(part)`
unfoldable pub lower_includes : String → String → Bool
unfolding occurs
lower_includes part text = occurs lower_code part text
