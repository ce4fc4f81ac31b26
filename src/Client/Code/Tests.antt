-- ===== src/Client/Code/Tests.antt =====
-- The stream code of client/scripts/client.js on concrete storage.
use vrcstreamer.Common.{◌≡◌, refl, true, some, [], ◌∷◌, ◌++◌, ◌==◌, if◌then◌else◌, replicate}
use vrcstreamer.Client.Code.{
  Codes, random_code, code_of_bytes, valid_stored_code, save_code, rotate_code, load_code,
}

-- A stored code with a space is replaced; the bytes 90 and 1 give "A" and "B".
abbrev loaded : Codes
loaded =
    load_code (record { stream_code = []; stored = some (replicate 32 32) }) true
      (λ n. if n == 0 then 1 else 90)

code_replaced : loaded.stream_code ≡ replicate 31 65 ++ (66 ∷ [])
unfolding load_code rotate_code random_code code_of_bytes valid_stored_code save_code
code_replaced = refl
