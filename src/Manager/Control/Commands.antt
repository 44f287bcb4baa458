-- ===== src/Manager/Control/Commands.antt =====
-- The names of the commands on the manager's /control (manager/src/main.rs).
use llm_chat.Prelude.{Text, Bool, ◌||◌, String, lit, text_eq, if◌then◌else◌}

pub data Command : Type 0 where
  instances_cmd open_cmd close_cmd list_cmd history_cmd clients_cmd queue_cmd usage_cmd : Command
  usage_daily_cmd user_box_cmd get_template_cmd set_template_cmd fifo_cmd screenshot_cmd : Command
  passed_cmd : Command
  unknown : Text → Command

abbrev is : Text → String → Bool
is cmd name = text_eq cmd (lit name)

unfoldable pub command_of : Text → Command
command_of cmd =
    if is cmd "instances"
    then instances_cmd
    else if is cmd "open"
    then open_cmd
    else if is cmd "close"
    then close_cmd
    else if is cmd "list" || is cmd "info"
    then list_cmd
    else if is cmd "history"
    then history_cmd
    else if is cmd "clients"
    then clients_cmd
    else if is cmd "queue"
    then queue_cmd
    else if is cmd "usage"
    then usage_cmd
    else if is cmd "usage-daily"
    then usage_daily_cmd
    else if is cmd "user-box"
    then user_box_cmd
    else if is cmd "get-template"
    then get_template_cmd
    else if is cmd "set-template"
    then set_template_cmd
    else if is cmd "fifo"
    then fifo_cmd
    else if is cmd "screenshot"
    then screenshot_cmd
    else if is cmd "switch" || is cmd "clear" || is cmd "current" || is cmd "log"
    then passed_cmd
    else unknown cmd
