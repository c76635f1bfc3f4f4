-- ===== src/Tests/PermissionExamples.antt =====
-- The theorems on permissions at concrete inputs.
use dion_runtime.Base.{
  ◌≡◌, ◌↔◌, refl, true, false, ◌&&◌, ◌==◌, none, List, [], ◌∷◌, Text, Result, ok, err, codes,
  contains, is_blank, subst,
}
use dion_runtime.Client.{Fault, json_fault, Codec, IsFaithful, IsNeverBlank}
use dion_runtime.Permission.{
  Permission, storage, network, action_popup, arbitrary_network, allows, permission_eq,
}
use dion_runtime.Permission.Allows.{Covers, allows-Covers}
use dion_runtime.Permission.Store.{
  PermissionStore, remove_permission, request_permission, new, save_state,
}
use dion_runtime.Permission.StoreLaws.{
  contains-remove_permission, request_permission-Answers, Answers, new-save_state,
}
use dion_runtime.UnixPath.{starts_with, components}
use dion_runtime.Tests.MemoryClient.{memory_client, memory-IsPersistent}

abbrev home : Permission
home = storage (codes "/home/me") true

abbrev photos : Permission
photos = storage (codes "/home/me/photos") false

abbrev holidays : Permission
holidays = storage (codes "/home/me/photos/2024") false

abbrev held : PermissionStore
held = record { permissions = photos ∷ action_popup ∷ [] }

-- A codec of the empty list and of the list of the popup permission.
abbrev put : List Permission → Result Fault Text
put [] = ok (codes "[]")
put (action_popup ∷ []) = ok (codes "[p]")
put _ = err json_fault

abbrev take_length : Text → Result Fault (List Permission)
take_length (_ ∷ _ ∷ []) = ok []
take_length (_ ∷ _ ∷ _ ∷ []) = ok (action_popup ∷ [])
take_length _ = err json_fault

abbrev codec : Codec (List Permission)
codec = record { to_string = put; from_str = take_length }

put_faithful : (l : List Permission) (t : Text) → put l ≡ ok t → take_length t ≡ ok l
put_faithful [] t e = let w : codes "[]" ≡ t = cc e in subst (λ u. take_length u ≡ ok []) w refl
put_faithful (action_popup ∷ []) t e =
    let w : codes "[p]" ≡ t = cc e in subst (λ u. take_length u ≡ ok (action_popup ∷ [])) w refl
put_faithful (storage p w ∷ r) t e = absurd (cc e)
put_faithful (network ds ∷ r) t e = absurd (cc e)
put_faithful (arbitrary_network ∷ r) t e = absurd (cc e)
put_faithful (action_popup ∷ q ∷ r) t e = absurd (cc e)

put_filled : (l : List Permission) (t : Text) → put l ≡ ok t → is_blank t ≡ false
put_filled [] t e = let w : codes "[]" ≡ t = cc e in subst (λ u. is_blank u ≡ false) w refl
put_filled (action_popup ∷ []) t e =
    let w : codes "[p]" ≡ t = cc e in subst (λ u. is_blank u ≡ false) w refl
put_filled (storage p w ∷ r) t e = absurd (cc e)
put_filled (network ds ∷ r) t e = absurd (cc e)
put_filled (arbitrary_network ∷ r) t e = absurd (cc e)
put_filled (action_popup ∷ q ∷ r) t e = absurd (cc e)

codec-IsFaithful : IsFaithful codec
codec-IsFaithful = record { round_trip = put_faithful }

codec_filled : IsNeverBlank codec
codec_filled = record { not_blank = put_filled }

allows-Covers_example : (allows home holidays ≡ true) ↔ Covers home holidays
allows-Covers_example = allows-Covers home holidays

-- What may only be read does not cover what may be written, and an empty path covers nothing.
allows_examples :
    (allows photos (storage (codes "/home/me/photos/a") true) ≡ false)
    × (allows (storage [] true) home ≡ false)
    × (allows home (storage (codes "/home/me2") false) ≡ false)
unfolding allows starts_with components
allows_examples = (refl, refl, refl)

contains-remove_permission_example :
    contains (remove_permission held action_popup).permissions photos
    ≡ (contains held.permissions photos && (photos == action_popup))
contains-remove_permission_example = contains-remove_permission held action_popup photos

request_permission-Answers_example :
    Answers held arbitrary_network []
      ((memory_client Permission).request_permission arbitrary_network none [])
      (request_permission (memory_client Permission) held arbitrary_network none [])
request_permission-Answers_example =
    request_permission-Answers (memory_client Permission) held arbitrary_network none [] tt

abbrev popup_only : PermissionStore
popup_only = record { permissions = action_popup ∷ [] }

save_done : (save_state (memory_client Permission) codec popup_only []).0 ≡ ok tt
unfolding save_state
save_done = refl

new-save_state_example :
    new
      (memory_client Permission)
      codec
      (save_state (memory_client Permission) codec popup_only []).1
    ≡ popup_only
new-save_state_example =
    new-save_state (memory_client Permission) codec popup_only [] (memory-IsPersistent Permission)
      codec-IsFaithful codec_filled save_done
