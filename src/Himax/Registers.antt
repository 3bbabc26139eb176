-- ===== src/Himax/Registers.antt =====
-- The register addresses and values of HimaxRegisters.cpp that the chip's operations use.
use ego_touch_rev.Prelude.{ℕ, ◌%◌, ◌/◌, List, [], ◌∷◌}

-- himax_parse_assign_cmd and WriteU32 at length 4: little-endian.
abbrev pub le32 : ℕ → List ℕ
le32 v = v % 256 ∷ v / 256 % 256 ∷ v / 65536 % 256 ∷ v / 16777216 % 256 ∷ []

abbrev pub addr_conti : ℕ
addr_conti = 0x13

abbrev pub addr_incr4 : ℕ
addr_incr4 = 0x0D

abbrev pub addr_ahb_rdata_byte_0 : ℕ
addr_ahb_rdata_byte_0 = 0x08

abbrev pub adr_i2c_psw_lb : ℕ
adr_i2c_psw_lb = 0x31

abbrev pub data_conti : ℕ
data_conti = 0x31

abbrev pub data_incr4 : ℕ
data_incr4 = 0x12

abbrev pub addr_tcon_on_rst : ℕ
addr_tcon_on_rst = 0x80020020

abbrev pub addr_system_reset : ℕ
addr_system_reset = 0x90000018

abbrev pub addr_ctrl_fw_isr : ℕ
addr_ctrl_fw_isr = 0x9000005C

abbrev pub addr_flag_reset_event : ℕ
addr_flag_reset_event = 0x900000E4

abbrev pub addr_raw_out_sel : ℕ
addr_raw_out_sel = 0x100072EC

abbrev pub addr_set_frame_addr : ℕ
addr_set_frame_addr = 0x10007294

abbrev pub addr_sorting_mode_en : ℕ
addr_sorting_mode_en = 0x10007F04

abbrev pub addr_fw_dbg_msg_addr : ℕ
addr_fw_dbg_msg_addr = 0x10007F40

abbrev pub addr_chk_fw_status : ℕ
addr_chk_fw_status = 0x900000A8

abbrev pub addr_chk_dd_status : ℕ
addr_chk_dd_status = 0x900000E8

abbrev pub data_system_reset : ℕ
data_system_reset = 0x55

abbrev pub data_clear : ℕ
data_clear = 0

abbrev pub data_fw_stop : ℕ
data_fw_stop = 0xA5

abbrev pub addr_rawdata_addr : ℕ
addr_rawdata_addr = 0x10000000

abbrev pub addr_rawdata_end : ℕ
addr_rawdata_end = 0

abbrev pub addr_fw_define_flash_reload : ℕ
addr_fw_define_flash_reload = 0x10007F00

abbrev pub addr_fw_define_2nd_flash_reload : ℕ
addr_fw_define_2nd_flash_reload = 0x100072C0

abbrev pub data_fw_define_flash_reload_dis : ℕ
data_fw_define_flash_reload_dis = 0xA55A

abbrev pub data_fw_define_flash_reload_en : ℕ
data_fw_define_flash_reload_en = 0
