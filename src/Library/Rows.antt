-- ===== src/Library/Rows.antt =====
-- The rows of lines 6 to 5212 of gazelle/closure_js/closure_library/closure_library.go. Those whose
-- names do not start with `goog.` are the last.
mod First
mod Second
mod Third
mod Fourth
mod Fifth
mod Sixth
mod Seventh
mod Eighth
mod Ninth
mod Tenth
mod Eleventh
mod Twelfth
mod Thirteenth
mod Fourteenth
mod Fifteenth
mod Sixteenth
mod Seventeenth
mod Eighteenth
mod Nineteenth
mod Twentieth
mod TwentyFirst
mod TwentySecond
mod TwentyThird
mod TwentyFourth
mod TwentyFifth
mod TwentySixth
mod TwentySeventh
mod TwentyEighth
mod TwentyNinth
mod Thirtieth
mod ThirtyFirst
mod ThirtySecond
mod ThirtyThird
mod ThirtyFourth
mod ThirtyFifth
mod Other
pub use First.*
pub use Second.*
pub use Third.*
pub use Fourth.*
pub use Fifth.*
pub use Sixth.*
pub use Seventh.*
pub use Eighth.*
pub use Ninth.*
pub use Tenth.*
pub use Eleventh.*
pub use Twelfth.*
pub use Thirteenth.*
pub use Fourteenth.*
pub use Fifteenth.*
pub use Sixteenth.*
pub use Seventeenth.*
pub use Eighteenth.*
pub use Nineteenth.*
pub use Twentieth.*
pub use TwentyFirst.*
pub use TwentySecond.*
pub use TwentyThird.*
pub use TwentyFourth.*
pub use TwentyFifth.*
pub use TwentySixth.*
pub use TwentySeventh.*
pub use TwentyEighth.*
pub use TwentyNinth.*
pub use Thirtieth.*
pub use ThirtyFirst.*
pub use ThirtySecond.*
pub use ThirtyThird.*
pub use ThirtyFourth.*
pub use ThirtyFifth.*
pub use Other.*
