-- ===== src/Processor/Messages.antt =====
-- The replies that src/processor.c prints, before `snprintf` cuts them to the caller's buffer.
use kaufbot.Prelude.{ℕ, ◌∷◌, [], ◌++◌, ℤ, if◌then◌else◌}
use kaufbot.CText.{Text, codes}
use kaufbot.CText.Decimal.{show_ℕ, show_ℤ}
use kaufbot.Backend.{FileRecord}

-- The emoji of the format strings, in UTF-8.
abbrev red_circle : Text
red_circle = 0xF0 ∷ 0x9F ∷ 0x94 ∷ 0xB4 ∷ []

abbrev page : Text
page = 0xF0 ∷ 0x9F ∷ 0x93 ∷ 0x84 ∷ []

abbrev ruler : Text
ruler = 0xF0 ∷ 0x9F ∷ 0x93 ∷ 0x8F ∷ []

abbrev arrows : Text
arrows = 0xF0 ∷ 0x9F ∷ 0x94 ∷ 0x84 ∷ []

abbrev key : Text
key = 0xF0 ∷ 0x9F ∷ 0x94 ∷ 0x91 ∷ []

abbrev robot : Text
robot = 0xF0 ∷ 0x9F ∷ 0xA4 ∷ 0x96 ∷ []

abbrev warning_sign : Text
warning_sign = 0xE2 ∷ 0x9A ∷ 0xA0 ∷ 0xEF ∷ 0xB8 ∷ 0x8F ∷ []

-- `strategy_notify_and_skip`
pub duplicate_detected : FileRecord → Text
duplicate_detected r =
    codes "Duplicate detected\n\nFile: "
    ++ (r.saved_file_name
        ++ (codes "\nUploaded: "
            ++ (r.created_at
                ++ (codes "\nOCR: "
                    ++ ((if r.is_ocr_processed then codes "done" else codes "pending")
                        ++ (codes "\nID: "
                            ++ (show_ℤ r.id ++ codes "\n\nThis file was already uploaded.")))))))

-- `"%s File: `saved`"` and what follows, shared by the upload's failures.
size_line : ℕ → Text
size_line n = ruler ++ (codes " Size: `" ++ (show_ℕ n ++ codes " bytes`\n\n"))

quoted_line : Text → Text → Text → Text
quoted_line mark label value =
    mark ++ (codes " " ++ (label ++ (codes ": `" ++ (value ++ codes "`\n"))))

pub upload_ocr_failed : Text → Text → ℕ → Text
unfolding size_line quoted_line
upload_ocr_failed saved_name original_name data_len =
    red_circle
    ++ (codes " *OCR Failed*\n\n"
        ++ (quoted_line page (codes "File") saved_name
            ++ (quoted_line ruler (codes "Original") original_name
                ++ (size_line data_len
                    ++ (arrows ++ codes " Use the button below to retry OCR.")))))

upload_details : Text → Text → Text → ℕ → Text
unfolding size_line quoted_line
upload_details saved_name ocr_name original_name data_len =
    quoted_line page (codes "File") saved_name
    ++ (quoted_line page (codes "OCR saved") ocr_name
        ++ (quoted_line ruler (codes "Original") original_name ++ size_line data_len))

pub upload_parsing_failed : Text → Text → Text → ℕ → Text
unfolding upload_details
upload_parsing_failed saved_name ocr_name original_name data_len =
    warning_sign
    ++ (codes " *Parsing Failed*\n\n"
        ++ (upload_details saved_name ocr_name original_name data_len
            ++ codes "OCR data is saved, parsing can be retried later."))

pub upload_bad_json : Text → Text → Text → ℕ → ℤ → Text
unfolding upload_details
upload_bad_json saved_name ocr_name original_name data_len id =
    warning_sign
    ++ (codes " *Parse Warning*\n\n"
        ++ (upload_details saved_name ocr_name original_name data_len
            ++ (codes "Saved to database but JSON was invalid.\n\n"
                ++ (key ++ (codes " ID: `" ++ (show_ℤ id ++ codes "`"))))))

-- `processor_retry_ocr`
pub retry_not_found : ℤ → Text
retry_not_found id = codes "File with ID " ++ (show_ℤ id ++ codes " not found.")

-- Its other replies: a title, the file and its id, and a last sentence.
pub retry_notice : Text → Text → ℤ → Text → Text
retry_notice title original_name id last =
    title ++ (codes "\n\nFile: " ++ (original_name ++ (codes "\nID: " ++ (show_ℤ id ++ last))))

-- `processor_retry_ocr_with_model`
pub model_not_found : ℤ → Text
model_not_found id = red_circle ++ (codes " File with ID `" ++ (show_ℤ id ++ codes "` not found."))

id_line : ℤ → Text
id_line id = key ++ (codes " ID: `" ++ (show_ℤ id ++ codes "`"))

model_line : Text → Text
model_line model = robot ++ (codes " Model: `" ++ (model ++ codes "`"))

pub model_no_original : Text → ℤ → Text
unfolding quoted_line id_line
model_no_original original_name id =
    red_circle
    ++ (codes " *Cannot Retry*\n\n"
        ++ (quoted_line page (codes "File") original_name
            ++ (id_line id ++ codes "\n\nOriginal file is missing from storage.")))

pub model_ocr_failed : Text → ℤ → Text → Text
unfolding quoted_line id_line model_line
model_ocr_failed original_name id model =
    red_circle
    ++ (codes " *OCR Failed*\n\n"
        ++ (quoted_line page (codes "File") original_name
            ++ (id_line id
                ++ (codes "\n"
                    ++ (model_line model
                        ++ (codes "\n\nOCR extraction failed with model `"
                            ++ (model ++ codes "`.")))))))

pub model_parsing_failed : Text → ℤ → Text → Text
unfolding quoted_line id_line model_line
model_parsing_failed original_name id model =
    warning_sign
    ++ (codes " *Parsing Failed*\n\n"
        ++ (quoted_line page (codes "File") original_name
            ++ (id_line id
                ++ (codes "\n"
                    ++ (model_line model ++ codes "\n\nOCR succeeded but parsing failed.")))))

pub model_bad_json : Text → ℤ → Text → Text
unfolding quoted_line id_line model_line
model_bad_json original_name id model =
    warning_sign
    ++ (codes " *Invalid JSON*\n\n"
        ++ (quoted_line page (codes "File") original_name
            ++ (id_line id ++ (codes "\n" ++ model_line model))))

-- What is added below the receipt.
pub model_trailer : ℤ → Text → Text
unfolding id_line model_line
model_trailer id model = codes "\n\n" ++ (id_line id ++ (codes "\n" ++ model_line model))
