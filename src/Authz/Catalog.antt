-- ===== src/Authz/Catalog.antt =====
-- app/authz/tool_catalog.py: the tools by what they change. A frozenset is a list.
use tg_my_person.Prelude.{
  String, Bool, true, false, not, ◌||◌, Option, none, some, List, [], ◌∷◌, ◌++◌, str_eq, any,
  if◌then◌else◌,
}

-- `tool in tools`
unfoldable pub contains : List String → String → Bool
contains tools tool = any (λ t. str_eq t tool) tools

abbrev pub group_write_tools : List String
group_write_tools =
    "create_group" ∷ "add_group_members" ∷ "remove_group_members" ∷ "set_group_admin"
    ∷ "remove_group_admin" ∷ "update_group_profile" ∷ "update_group_settings" ∷ "reset_invite_link"
    ∷ "approve_join_requests" ∷ "decline_join_requests" ∷ "delete_group" ∷ []

abbrev pub group_read_tools : List String
group_read_tools = "get_invite_link" ∷ "list_join_requests" ∷ []

abbrev pub max_r4_write_tools : List String
max_r4_write_tools =
    "send_video_note" ∷ "vote_poll" ∷ "import_contacts" ∷ "remove_contact" ∷ "delete_dialog"
    ∷ "create_folder" ∷ "update_folder" ∷ "delete_folder" ∷ []

abbrev pub max_r4_read_tools : List String
max_r4_read_tools = "get_reactions" ∷ "list_folders" ∷ []

abbrev pub max_r5_write_tools : List String
max_r5_write_tools =
    "transfer_group_ownership" ∷ "create_invite_link" ∷ "revoke_invite_links" ∷ "press_button"
    ∷ "start_bot" ∷ []

abbrev pub max_r5_read_tools : List String
max_r5_read_tools =
    "list_invite_links" ∷ "get_bot_info" ∷ "get_message_link" ∷ "get_poll_voters"
    ∷ "transcribe_voice" ∷ "search_chat_messages" ∷ "get_post_stats" ∷ []

abbrev pub write_messenger_tools : List String
write_messenger_tools =
    ("send_message" ∷ "send_file" ∷ "send_voice" ∷ "send_album" ∷ "send_poll" ∷ "forward_message"
      ∷ "edit_message" ∷ "delete_message" ∷ "pin_message" ∷ "unpin_message" ∷ "react_to_message"
      ∷ "cancel_scheduled" ∷ "send_scheduled_now" ∷ "join_chat_endpoint" ∷ "leave_chat_endpoint"
      ∷ "archive_chat" ∷ "update_chat_settings" ∷ "mark_read" ∷ "block_user" ∷ "unblock_user"
      ∷ "send_to_person" ∷ "contact_by_phone" ∷ [])
    ++ (group_write_tools ++ (max_r4_write_tools ++ max_r5_write_tools))

abbrev pub write_db_tools : List String
write_db_tools =
    "snapshot_chat_members" ∷ "snapshot_import_members" ∷ "sync_chats" ∷ "trigger_backfill"
    ∷ "upload_file" ∷ "update_person" ∷ "merge_people" ∷ "split_person" ∷ []

abbrev pub manage_session_tools : List String
manage_session_tools =
    "auth_login" ∷ "auth_code" ∷ "auth_session" ∷ "auth_logout" ∷ "auth_qr_start" ∷ "auth_qr_status"
    ∷ []

abbrev pub max_only_tools : List String
max_only_tools =
    ("auth_qr_start" ∷ "auth_qr_status" ∷ [])
    ++ (group_write_tools
        ++ (group_read_tools
            ++ (max_r4_write_tools
                ++ (max_r4_read_tools ++ (max_r5_write_tools ++ max_r5_read_tools)))))

abbrev pub read_only_tools : List String
read_only_tools =
    ("auth_me" ∷ "auth_status" ∷ "list_chats" ∷ "get_chat_detail" ∷ "list_members" ∷ "get_my_rights"
      ∷ "resolve_chat_endpoint" ∷ "list_messages" ∷ "get_single_message" ∷ "list_scheduled"
      ∷ "download_media" ∷ "list_users" ∷ "list_contacts" ∷ "resolve_user" ∷ "resolve_by_id"
      ∷ "search_global" ∷ "sync_status" ∷ "stream_messages" ∷ "list_chat_snapshots"
      ∷ "get_snapshot_members" ∷ "download_file" ∷ "available_tools" ∷ "find_person" ∷ "get_person"
      ∷ "person_messages" ∷ "person_chats" ∷ "reachable_contacts" ∷ [])
    ++ (group_read_tools ++ (max_r4_read_tools ++ max_r5_read_tools))

abbrev pub write_tools : List String
write_tools = write_messenger_tools ++ (write_db_tools ++ manage_session_tools)

abbrev pub all_tools : List String
all_tools = read_only_tools ++ write_tools

-- `none` where the tool is unknown and a KeyError is raised.
unfoldable pub tool_is_write : String → Option Bool
tool_is_write tool =
    if contains write_messenger_tools tool
    then some true
    else if contains read_only_tools tool
        || contains write_db_tools tool
        || contains manage_session_tools tool
    then some false
    else none

unfoldable pub tool_allowed_on_ro : String → Option Bool
tool_allowed_on_ro tool = elim (tool_is_write tool) [ none ↦ none | some w ↦ some (not w) ]
