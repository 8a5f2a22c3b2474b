-- ===== src/Admin/Mints.antt =====
-- What program/src/admin/create_market.rs reads of a mint account: the token program that owns it, its
-- decimals, and the extensions of a Token-2022 mint.
pub mod Extensions
use solana_orderbook.Base.{
  ℕ, zero, suc, ◌+◌, ◌-◌, Bool, true, false, not, ◌&&◌, ◌||◌, Option, none, some, List, ◌==◌, ltb,
  leb, if◌then◌else◌,
}
use solana_orderbook.Base.Bytes.{length, u8_at, u16_at}
use solana_orderbook.Exec.{Result, ok, err}
use solana_orderbook.Exec.Errors.{
  clob, unsupported_token_program, invalid_account_length, invalid_state,
}
use solana_orderbook.State.Constants.{token_program_legacy, token_program_2022}
use solana_orderbook.Runtime.Accounts.{AccountInfo, ProgramIds}

unfoldable pub mint_token_program_flag : ProgramIds → AccountInfo → Result ℕ
mint_token_program_flag ids mint =
    if mint.owner == ids.token_id
    then ok token_program_legacy
    else (if mint.owner == ids.token_2022_id
        then ok token_program_2022
        else err (clob unsupported_token_program))

abbrev pub mint_tlv_offset : ℕ
mint_tlv_offset = 166

abbrev pub permanent_delegate_extension_type : ℕ
permanent_delegate_extension_type = 12

-- The length that a mint of the program must have.
unfoldable pub len_ok : ℕ → ℕ → Bool
len_ok flag len = if flag == token_program_2022 then leb 82 len else (len == 82)

unfoldable pub mint_decimals : ℕ → List ℕ → Result ℕ
unfolding len_ok
mint_decimals flag bytes =
    if not (len_ok flag (length bytes))
    then err (clob invalid_account_length)
    else (if u8_at 45 bytes == 0
        then err (clob invalid_state)
        else (if ((flag == token_program_2022) && ltb 82 (length bytes))
              && (leb (length bytes) (mint_tlv_offset - 1)
                  || not (u8_at (mint_tlv_offset - 1) bytes == 1))
            then err (clob invalid_state)
            else ok (u8_at 44 bytes)))

-- Where the entry after the one at `i` starts.
unfoldable pub entry_end : List ℕ → ℕ → ℕ
entry_end bytes i = i + (4 + u16_at (i + 2) bytes)

-- The `while` loop, over at most as many rounds; `none` if it is not over by then.
unfoldable pub scan : ℕ → List ℕ → ℕ → Option Bool
unfolding entry_end
scan zero bytes i = none
scan (suc rounds) bytes i =
    let rest = scan rounds bytes (entry_end bytes i) in
    if ltb (length bytes) (i + 4)
    then some false
    else (if u16_at i bytes == permanent_delegate_extension_type then some true else rest)

-- `none` if the scan is not over after as many rounds.
unfoldable pub has_permanent_delegate_bytes : ℕ → List ℕ → Option Bool
unfolding scan
has_permanent_delegate_bytes rounds bytes =
    if leb (length bytes) 82 then some false else scan rounds bytes mint_tlv_offset
