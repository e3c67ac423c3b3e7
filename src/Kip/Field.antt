-- ===== src/Kip/Field.antt =====
-- The fields of `CustomizeTable`, by the place of their 32-bit word in the table; an array by that of
-- its first word (Source/ryazha-clk/sysmodule/src/file/kip.hpp). `word_count` is the length of the table.
use rcu.Base.{ℕ}

abbrev pub cust_rev : ℕ
cust_rev = 1

abbrev pub kip_version : ℕ
kip_version = 2

abbrev pub hp_mode : ℕ
hp_mode = 3

abbrev pub common_emc_mem_volt : ℕ
common_emc_mem_volt = 4

abbrev pub erista_emc_max_clock : ℕ
erista_emc_max_clock = 5

abbrev pub step_mode : ℕ
step_mode = 6

abbrev pub mariko_emc_max_clock : ℕ
mariko_emc_max_clock = 7

abbrev pub mariko_emc_vddq_volt : ℕ
mariko_emc_vddq_volt = 8

abbrev pub emc_dvb_shift : ℕ
emc_dvb_shift = 9

abbrev pub mariko_soc_vmax : ℕ
mariko_soc_vmax = 10

abbrev pub t1_trcd : ℕ
t1_trcd = 11

abbrev pub t2_trp : ℕ
t2_trp = 12

abbrev pub t3_tras : ℕ
t3_tras = 13

abbrev pub t4_trrd : ℕ
t4_trrd = 14

abbrev pub t5_trfc : ℕ
t5_trfc = 15

abbrev pub t6_trtw : ℕ
t6_trtw = 16

abbrev pub t7_twtr : ℕ
t7_twtr = 17

abbrev pub t8_trefi : ℕ
t8_trefi = 18

abbrev pub t2_trp_cap : ℕ
t2_trp_cap = 19

abbrev pub timing_emc_tbreak : ℕ
timing_emc_tbreak = 20

abbrev pub low_t6_trtw : ℕ
low_t6_trtw = 21

abbrev pub low_t7_twtr : ℕ
low_t7_twtr = 22

abbrev pub read_latency_1333 : ℕ
read_latency_1333 = 23

abbrev pub read_latency_1600 : ℕ
read_latency_1600 = 24

abbrev pub read_latency_1866 : ℕ
read_latency_1866 = 25

abbrev pub read_latency_2133 : ℕ
read_latency_2133 = 26

abbrev pub write_latency_1333 : ℕ
write_latency_1333 = 27

abbrev pub write_latency_1600 : ℕ
write_latency_1600 = 28

abbrev pub write_latency_1866 : ℕ
write_latency_1866 = 29

abbrev pub write_latency_2133 : ℕ
write_latency_2133 = 30

abbrev pub erista_cpu_uv : ℕ
erista_cpu_uv = 31

abbrev pub erista_cpu_vmin : ℕ
erista_cpu_vmin = 32

abbrev pub erista_cpu_max_volt : ℕ
erista_cpu_max_volt = 33

abbrev pub erista_cpu_unlock : ℕ
erista_cpu_unlock = 34

abbrev pub mariko_cpu_uv_low : ℕ
mariko_cpu_uv_low = 35

abbrev pub mariko_cpu_uv_high : ℕ
mariko_cpu_uv_high = 36

abbrev pub table_conf : ℕ
table_conf = 37

abbrev pub mariko_cpu_low_vmin : ℕ
mariko_cpu_low_vmin = 38

abbrev pub mariko_cpu_high_vmin : ℕ
mariko_cpu_high_vmin = 39

abbrev pub mariko_cpu_max_volt : ℕ
mariko_cpu_max_volt = 40

abbrev pub mariko_cpu_max_clock : ℕ
mariko_cpu_max_clock = 41

abbrev pub erista_cpu_boost_clock : ℕ
erista_cpu_boost_clock = 42

abbrev pub mariko_cpu_boost_clock : ℕ
mariko_cpu_boost_clock = 43

abbrev pub erista_gpu_uv : ℕ
erista_gpu_uv = 44

abbrev pub erista_gpu_vmin : ℕ
erista_gpu_vmin = 45

abbrev pub mariko_gpu_uv : ℕ
mariko_gpu_uv = 46

abbrev pub mariko_gpu_vmin : ℕ
mariko_gpu_vmin = 47

abbrev pub mariko_gpu_boot_volt : ℕ
mariko_gpu_boot_volt = 48

abbrev pub mariko_gpu_vmax : ℕ
mariko_gpu_vmax = 49

abbrev pub common_gpu_volt_offset : ℕ
common_gpu_volt_offset = 50

abbrev pub erista_gpu_volt_array : ℕ
erista_gpu_volt_array = 51

abbrev pub mariko_gpu_volt_array : ℕ
mariko_gpu_volt_array = 78

abbrev pub t6_trtw_fine_tune : ℕ
t6_trtw_fine_tune = 102

abbrev pub t7_twtr_fine_tune : ℕ
t7_twtr_fine_tune = 103

abbrev pub word_count : ℕ
word_count = 164
