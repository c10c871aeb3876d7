-- ===== src/Device/Examples.antt =====
-- Entries and buckets, at which the theorems apply.
use vgpu_rs.Base.{ℕ, ◌-◌, ◌≡◌, refl, [], ◌∷◌, arith, take}
use vgpu_rs.Float.Tests.{hundredths}
use vgpu_rs.Device.Bytes.{max_uuid_len}
use vgpu_rs.Device.V1
use vgpu_rs.Device.V2
use vgpu_rs.Device.Uuid.{get_uuid-set_uuid}
use vgpu_rs.Device.Tokens.{
  Bucket, System, sub_loading, update, act, Reach, here, next, run, call_sub, call_add,
  add_starting, stores_tokens, stores_capacity,
}
use vgpu_rs.Device.Tokens.Linear.{quiet}
use vgpu_rs.Device.Tokens.Bounds.{IsInLimit, IsBounded, tokens-IsBounded}

get_uuid-set_uuid_example :
    (V1.get_uuid (V1.set_uuid V1.new_entry (71 ∷ 80 ∷ [])) ≡ take (max_uuid_len - 1) (71 ∷ 80 ∷ []))
    × (V2.get_uuid (V2.set_uuid (V2.new_entry hundredths) (71 ∷ 80 ∷ []))
        ≡ take (max_uuid_len - 1) (71 ∷ 80 ∷ []))
get_uuid-set_uuid_example =
    get_uuid-set_uuid V1.new_entry (V2.new_entry hundredths) (71 ∷ 80 ∷ [])
      ((λ e. ground arith), ((λ e. ground arith), tt))

-- Five tokens of ten.
abbrev five_of_ten : Bucket
five_of_ten = record { word = 500; capacity = 1000 }

-- Thread 0 has begun to take two tokens and made its load; thread 1 has begun to add one.
abbrev begun : System hundredths
begun = record {
  bucket = five_of_ten;
  pc = update hundredths (quiet hundredths five_of_ten).pc 0 (sub_loading 200);
}

abbrev loaded : System hundredths
loaded = act hundredths begun 0

-- Meanwhile the controller lowers the capacity to four tokens and then stores four tokens.
abbrev racing : System hundredths
racing = record {
  bucket = record { word = 400; capacity = 400 };
  pc = update hundredths loaded.pc 1 (add_starting 100);
}

abbrev UpToTen : ℕ → Type 0
UpToTen = IsInLimit hundredths 1000

run_racing : Reach hundredths UpToTen UpToTen (quiet hundredths five_of_ten) racing
run_racing =
    next
      (next (next (next (next here (call_sub 0 200 refl)) (run 0)) (call_add 1 100))
        (stores_capacity 400 (refl, refl)))
      (stores_tokens 400 (refl, refl))

five_of_ten-IsBounded : IsBounded hundredths 1000 five_of_ten
five_of_ten-IsBounded = record { capacity = (refl, refl); tokens = (refl, refl) }

tokens-IsBounded_example : IsBounded hundredths 1000 racing.bucket
tokens-IsBounded_example = tokens-IsBounded hundredths 1000 five_of_ten-IsBounded run_racing
