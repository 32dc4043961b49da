-- ===== src/Sender/Tests.antt =====
-- A run of app/utils/sender.py: a channel as the sender.
use tg_my_person.Prelude.{◌≡◌, none, some, negsuc}
use tg_my_person.Sender.{classify_sender}
use tg_my_person.Sender.Ids.{classify_sender_keeps}

classify_sender_keeps_example :
    ((classify_sender (some (negsuc 41))).0 ≡ none)
    × ((classify_sender (some (negsuc 41))).1 ≡ some (negsuc 41))
classify_sender_keeps_example = classify_sender_keeps (some (negsuc 41))
