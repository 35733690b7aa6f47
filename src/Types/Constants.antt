-- ===== src/Types/Constants.antt =====
-- The constants of headers/const.h, phase2/headers/ssi.h and phase2/headers/initial.h.
use project.Common.{ℕ, ◌-◌, ◌^◌}

-- Negative constants are written as unsigned words.
abbrev pub max_proc : ℕ
max_proc = 50

abbrev pub max_messages : ℕ
max_messages = 50

abbrev pub any_message : ℕ
any_message = 0

abbrev pub msg_no_good : ℕ
msg_no_good = 2 ^ 32 - 1

abbrev pub dest_not_exist : ℕ
dest_not_exist = 2 ^ 32 - 2

abbrev pub no_proc : ℕ
no_proc = 2 ^ 32 - 1

abbrev pub send_message_code : ℕ
send_message_code = 2 ^ 32 - 1

abbrev pub receive_message_code : ℕ
receive_message_code = 2 ^ 32 - 2

abbrev pub parent : ℕ
parent = 0

abbrev pub pg_fault_except : ℕ
pg_fault_except = 0

abbrev pub general_except : ℕ
general_except = 1

abbrev pub il_timer : ℕ
il_timer = 3

abbrev pub il_cputimer : ℕ
il_cputimer = 7

abbrev pub il_terminal : ℕ
il_terminal = 21

abbrev pub time_scale_addr : ℕ
time_scale_addr = 0x10000024

abbrev pub time_slice : ℕ
time_slice = 5000

abbrev pub psecond : ℕ
psecond = 100000

abbrev pub get_exec_code : ℕ
get_exec_code = 0x7FFFFFFF

abbrev pub mie_all : ℕ
mie_all = 0xFFFFFFFF

abbrev pub mie_mtie_mask : ℕ
mie_mtie_mask = 0x40

abbrev pub mstatus_mpp_m : ℕ
mstatus_mpp_m = 0x1800

abbrev pub mstatus_mpie_mask : ℕ
mstatus_mpie_mask = 0x80

-- phase2/headers/ssi.h
abbrev pub interrupt_handler_msg : ℕ
interrupt_handler_msg = 1

abbrev pub ssi_fake_addr : ℕ
ssi_fake_addr = 2

-- (N_EXT_IL + 1) * N_DEV_PER_IL of phase2/headers/initial.h
abbrev pub max_device : ℕ
max_device = 48

-- `sizeof(struct list_head)`
abbrev pub sizeof_list_head : ℕ
sizeof_list_head = 8

abbrev pub mstatus_mie_bit : ℕ
mstatus_mie_bit = 3

abbrev pub page_size : ℕ
page_size = 4096

abbrev pub uproc_max : ℕ
uproc_max = 8

abbrev pub max_pages : ℕ
max_pages = 32
