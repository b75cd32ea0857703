-- ===== src/Config/Erase.antt =====
-- TMPLT_DEFINE_ERASE_FUNC and TMPLT_DEFINE_ERASE_FUNC_NUM of QuaServer/FileDataMeta.h, which erase files
-- whose data ended long ago. The end is a field of the data, as a date or as a number, which may be
-- missing; `strtotime` and the clock are parameters.
use modern_flux.Base.{◌*◌, ◌≡◌, Bool, false, ◌&&◌, Option, none, some, ltb, length, get_or}
use modern_flux.Base.Int.{ℤ, pos, ltb_ℤ, positive, ◌-ℤ◌}
use modern_flux.Base.Bytes.{Bytes}
use modern_flux.Base.Dict.{Dict, lookup, erase_if}
use modern_flux.Base.Dict.Every.{Every, lookup-erase_if, erase_if-Every}
use modern_flux.Config.{Item, Arr}

-- TMPLT_DATA_OFFLINE_TIME
abbrev pub data_offline_time : ℤ
data_offline_time = pos (31 * 24 * 60 * 60)

abbrev is_offline : ℤ → ℤ → Bool
is_offline cur_time end_time =
    ltb_ℤ end_time cur_time && ltb_ℤ data_offline_time (cur_time -ℤ end_time)

abbrev ended_text : (Bytes → ℤ) → ℤ → Option Bytes → Bool
ended_text strtotime cur_time none = false
ended_text strtotime cur_time (some str) = ltb 0 (length str) && is_offline cur_time (strtotime str)

abbrev ended_num : ℤ → Option ℤ → Bool
ended_num cur_time none = false
ended_num cur_time (some end_time) = positive end_time && is_offline cur_time end_time

-- The data that readers point at.
abbrev current : {A : Type 0} → Item A → Arr A → A
current fresh arr = (get_or arr.data_arr arr.cur fresh).cfg_data

-- TMPLT_DEFINE_ERASE_FUNC
unfoldable pub erase_by_date :
    {A : Type 0} → (A → Option Bytes) → (Bytes → ℤ) → Item A → ℤ → Dict (Arr A) → Dict (Arr A)
erase_by_date endname strtotime fresh cur_time tmap =
    erase_if (λ arr. ended_text strtotime cur_time (endname (current fresh arr))) tmap

-- TMPLT_DEFINE_ERASE_FUNC_NUM
unfoldable pub erase_by_num :
    {A : Type 0} → (A → Option ℤ) → Item A → ℤ → Dict (Arr A) → Dict (Arr A)
erase_by_num endname fresh cur_time tmap =
    erase_if (λ arr. ended_num cur_time (endname (current fresh arr))) tmap

module _ {A : Type 0} (endname : A → Option ℤ) (fresh : Item A) (cur_time : ℤ) where
  -- A file whose data have no end, or one that is not more than 31 days past, stays with its data;
  -- after the loop no other file is left.
  lookup-erase_by_num :
      (key : Bytes) (arr : Arr A) (tmap : Dict (Arr A))
      → lookup key tmap ≡ some arr
      → ended_num cur_time (endname (current fresh arr)) ≡ false
      → (lookup key (erase_by_num endname fresh cur_time tmap) ≡ some arr)
        × Every
            (λ a. ended_num cur_time (endname (current fresh a)) ≡ false)
            (erase_by_num endname fresh cur_time tmap)
  unfolding erase_by_num
  lookup-erase_by_num key arr tmap e h = (lookup-erase_if _ key arr tmap e h, erase_if-Every _ tmap)

module _ {A : Type 0} (endname : A → Option Bytes) (strtotime : Bytes → ℤ) (fresh : Item A)
    (cur_time : ℤ) where
  -- The same for an end that is a date.
  lookup-erase_by_date :
      (key : Bytes) (arr : Arr A) (tmap : Dict (Arr A))
      → lookup key tmap ≡ some arr
      → ended_text strtotime cur_time (endname (current fresh arr)) ≡ false
      → (lookup key (erase_by_date endname strtotime fresh cur_time tmap) ≡ some arr)
        × Every
            (λ a. ended_text strtotime cur_time (endname (current fresh a)) ≡ false)
            (erase_by_date endname strtotime fresh cur_time tmap)
  unfolding erase_by_date
  lookup-erase_by_date key arr tmap e h =
      (lookup-erase_if _ key arr tmap e h, erase_if-Every _ tmap)
