-- ===== src/AudioFile/Laws.antt =====
-- What reading and writing the frames of mpf/mpf_audio_file_stream.go does, and what it never does.
use go_mrcp.AudioFile.{AudioFileStream, FileRun, ok, err, panic}

-- What a call leaves of the file stream and of the frame, whether it returned an error or not.
abbrev pub Leaves :
    {World A : Type 0}
    → (AudioFileStream → A → Type 0)
    → (AudioFileStream → A → Type 0)
    → FileRun World A
    → Type 0
Leaves p q (ok w s a) = p s a
Leaves p q (err w s a) = q s a
Leaves p q panic = Unit {0}
