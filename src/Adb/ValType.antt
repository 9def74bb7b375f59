-- ===== src/Adb/ValType.antt =====
-- The types of a value, ADB_TYPE_SPECIAL to ADB_TYPE_ERROR of apk-tools/src/adb.h.
use alpine_linux_mac_os.Base.{ℕ}

abbrev pub special : ℕ
special = 0x00000000

abbrev pub int : ℕ
int = 0x10000000

abbrev pub int_32 : ℕ
int_32 = 0x20000000

abbrev pub int_64 : ℕ
int_64 = 0x30000000

abbrev pub blob_8 : ℕ
blob_8 = 0x80000000

abbrev pub blob_16 : ℕ
blob_16 = 0x90000000

abbrev pub blob_32 : ℕ
blob_32 = 0xa0000000

abbrev pub array : ℕ
array = 0xd0000000

abbrev pub object : ℕ
object = 0xe0000000

abbrev pub error : ℕ
error = 0xf0000000
