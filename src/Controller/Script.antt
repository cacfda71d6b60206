-- ===== src/Controller/Script.antt =====
-- The command lines that the controller hands to the shell.
pub mod Commands
pub mod Words
use wifigateway_server.Base.{ℕ, ◌++◌}
use wifigateway_server.Base.Int.{ℤ}
use wifigateway_server.Qt.Text.{QString, codes}
use wifigateway_server.Qt.Number.{number, number_int}

abbrev pub script_timeout : ℕ
script_timeout = 5000

unfoldable pub add_host_command : QString → QString → ℕ → ℤ → QString
unfolding number number_int
add_host_command dir ip bandwidth quota =
    dir
    ++ (codes "/wifigateway-script/gw_add_host.sh "
        ++ (ip ++ (codes " " ++ (number bandwidth ++ (codes " " ++ number_int quota)))))

unfoldable pub remove_host_command : QString → QString → QString
remove_host_command dir ip = dir ++ (codes "/wifigateway-script/gw_remove_host.sh " ++ ip)

unfoldable pub clean_up_command : QString → QString
clean_up_command dir = dir ++ codes "/wifigateway-script/gw_clean_up.sh"
